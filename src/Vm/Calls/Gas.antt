-- ===== src/Vm/Calls/Gas.antt =====
-- The gas of a whole run of a closure (ethchain/vm.go), with the closures that it runs.
use goeth_self_training.Prelude.{
  ℕ, zero, suc, ◌≡◌, ◌∙◌, refl, subst, Option, some, none, List, [], ◌∷◌, arith, if◌then◌else◌,
}
use goeth_self_training.Prelude.Int.{ℤ, pos, ◌+ℤ◌, ◌-ℤ◌, eqb_ℤ, +ℤ_parts, -ℤ_parts, eq_of_parts}
use goeth_self_training.Prelude.Result.{
  Result, ok, panic, out_of_fuel, Holds, Holds-bind, Holds-ok, Holds-elim, Holds-intro,
  Holds-out_of_fuel, Holds-here,
}
use goeth_self_training.Bytes.{big_bytes}
use goeth_self_training.Trie.{Trie}
use goeth_self_training.State.{add_amount, StateObject, get_state_object}
use goeth_self_training.State.Nested.{Snapshot, snapshot}
use goeth_self_training.Vm.Machine
use goeth_self_training.Vm.Machine.{Machine, start, use_gas}
use goeth_self_training.Vm.Exec.{
  big_false, Request, suicide, create, call, Outcome, running, returned, failed, request,
}
use goeth_self_training.Vm.Step.{run}
use goeth_self_training.Vm.Conservation.{machine_of, total_gas, use_gas-total, run_conserves}
use goeth_self_training.Vm.Calls.{
  Frame, Scene, Ended, Next, goes_on, ends, cell, enter, give_back, take_gas, serve, serve_suicide,
  serve_create, serve_call, call_object, call_returned, push_on, stow, after, settle, resume,
  call_closure, finish, refunds, Loop, Nested,
}

with_none : (a : ℤ) → a +ℤ pos 0 ≡ a
with_none a = eq_of_parts (a +ℤ pos 0) a (omega (arith, +ℤ_parts a (pos 0)))

given_moved : (a b c : ℤ) → (a +ℤ c) +ℤ (b -ℤ c) ≡ a +ℤ b
given_moved a b c =
    eq_of_parts ((a +ℤ c) +ℤ (b -ℤ c)) (a +ℤ b)
      (omega (arith, +ℤ_parts (a +ℤ c) (b -ℤ c), +ℤ_parts a c, -ℤ_parts b c, +ℤ_parts a b))

module _ (tries : Trie) where
  open tries use {T}

  take_gas-total : (gas : ℤ) (m : Machine T) → total_gas (take_gas tries gas m) ≡ total_gas m
  unfolding take_gas
  take_gas-total gas m = go (use_gas gas m) refl
    where
      go :
          (o : Option (Machine T))
          → use_gas gas m ≡ o
          → total_gas (elim o [ none ↦ m | some m' ↦ m' ]) ≡ total_gas m
      go none e = refl
      go (some m') e = use_gas-total tries gas m m' e

  give_back-total :
      (given : List ℤ) (m : Machine T) → total_gas (give_back tries given m) ≡ total_gas m
  unfolding give_back Machine.return_gas
  give_back-total [] m = refl
  give_back-total (gas ∷ more) m =
      give_back-total more (Machine.return_gas gas m) ∙ given_moved m.gas m.used_gas gas

  -- The gas that is left and the gas that was used add up to `total`.
  abbrev Settled : ℤ → Ended tries → Type 0
  Settled total e = e.gas +ℤ e.used_gas ≡ total

  NextSettled : ℤ → Next tries → Type 0
  NextSettled total (goes_on m back s) = total_gas m ≡ total
  NextSettled total (ends e) = Settled total e

  module _ (sha3 : List ℕ → List ℕ) (spare : List ℕ → List ℕ) where
    serve_suicide-Settled :
        (receiver : ℤ) (f : Frame) (s : Scene tries) (back : List ℤ) (m : Machine T)
        → Holds (NextSettled (total_gas m)) (serve_suicide tries sha3 spare receiver f s back m)
    unfolding serve_suicide NextSettled Holds finish
    serve_suicide-Settled receiver f s back m = ground (arith)

    serve_create-Settled :
        (nested : Nested tries sha3 spare) (value : ℤ) (init : List ℕ) (f : Frame) (s : Scene tries)
        (back : List ℤ) (m : Machine T)
        → Holds
            (NextSettled (total_gas m))
            (serve_create tries sha3 spare nested value init f s back m)
    unfolding serve_create NextSettled Holds
    serve_create-Settled nested value init f s back m = ground (arith, take_gas-total m.gas m)

    call_returned-Settled :
        (snap : Snapshot tries) (contract : StateObject) (ret_size ret_offset : ℤ) (f : Frame)
        (back : List ℤ) (m : Machine T) (child : Ended tries)
        → Holds
            (NextSettled (total_gas m))
            (call_returned tries sha3 spare snap contract ret_size ret_offset f back m child)
    unfolding call_returned NextSettled Holds finish
    call_returned-Settled snap contract ret_size ret_offset f back m child = ground (arith)

    call_object-Settled :
        (nested : Nested tries sha3 spare) (snap : Snapshot tries) (object : StateObject)
        (gas value : ℤ) (args : List ℕ) (ret_size ret_offset : ℤ) (f : Frame) (s : Scene tries)
        (back : List ℤ) (m : Machine T)
        → Holds (NextSettled (total_gas m)) (
            call_object tries sha3 spare nested snap object gas value args ret_size ret_offset f s
              back m)
    unfolding call_object
    call_object-Settled nested snap object gas value args ret_size ret_offset f s back m =
        let gas' = if eqb_ℤ gas (pos 0) then m.gas else gas in
        Holds-bind (NextSettled (total_gas m)) (nested _ gas' s) _ λ child.
          let m' = give_back tries (refunds tries child) (take_gas tries gas' m) in
          subst
            (λ total. Holds (NextSettled total) (
              call_returned tries sha3 spare snap (add_amount value object) ret_size ret_offset f
                back m' child))
            (give_back-total (refunds tries child) (take_gas tries gas' m) ∙ take_gas-total gas' m)
            (call_returned-Settled snap (add_amount value object) ret_size ret_offset f back m'
              child)

    serve-Settled :
        (nested : Nested tries sha3 spare) (q : Request) (f : Frame) (s : Scene tries)
        (back : List ℤ) (m : Machine T)
        → Holds (NextSettled (total_gas m)) (serve tries sha3 spare nested q f s back m)
    unfolding serve serve_call NextSettled
    serve-Settled nested (suicide receiver) f s back m = serve_suicide-Settled receiver f s back m
    serve-Settled nested (create value init) f s back m =
        serve_create-Settled nested value init f s back m
    serve-Settled nested (call addr gas value args ret_size ret_offset) f s back m =
        Holds-bind (NextSettled (total_gas m)) (snapshot tries s.world) _ λ (snap, w).
          Holds-bind (NextSettled (total_gas m)) (get_state_object tries (big_bytes addr) w) _
            λ (found, w').
              Holds-elim (NextSettled (total_gas m)) found _ _
                (Holds-intro (NextSettled (total_gas m))
                  (goes_on (push_on tries big_false m) back (record s { world = w' })) refl)
                λ object.
                  call_object-Settled nested snap object gas value args ret_size ret_offset f
                    (record s { world = w' }) back m

    -- Every run of the loop settles its gas.
    LoopSettles : Loop tries sha3 spare → Type 0
    LoopSettles go =
        (f : Frame) (s : Scene tries) (back : List ℤ) (m : Machine T)
        → Holds (Settled (total_gas m)) (go f s back m)

    after-Settled :
        (go : Loop tries sha3 spare) (f : Frame) (s : Scene tries) (back : List ℤ) (m : Machine T)
        (next : Result (Next tries))
        → LoopSettles go
        → Holds (NextSettled (total_gas m)) next
        → Holds (Settled (total_gas m)) (after tries sha3 spare go f s back m next)
    unfolding after Holds LoopSettles NextSettled finish
    after-Settled go f s back m (ok (ends e)) h k = k
    after-Settled go f s back m (ok (goes_on m' back' s')) h k =
        Holds-bind (Settled (total_gas m)) (cell tries f s') _ λ t.
          subst (λ total. Holds (Settled total) (go f s' back' (record m' { storage = t }))) k
            (h f s' back' (record m' { storage = t }))
    after-Settled go f s back m panic h k = refl
    after-Settled go f s back m out_of_fuel h k = tt

    settle-Settled :
        (go : Loop tries sha3 spare) (f : Frame) (s : Scene tries) (back : List ℤ) (o : Outcome T)
        → LoopSettles go
        → Holds (Settled (total_gas (machine_of o))) (settle tries sha3 spare go f s back o)
    unfolding settle Holds finish
    settle-Settled go f s back (running m) h = tt
    settle-Settled go f s back (returned t m) h = refl
    settle-Settled go f s back (failed e m) h = refl
    settle-Settled go f s back (request q m) h =
        let s' = stow tries f m s in
        let m' = record m { changes = [] } in
        after-Settled go f s' back m' (serve tries sha3 spare (enter tries go) q f s' back m') h
          (serve-Settled (enter tries go) q f s' back m')

    resume-Settled :
        (fuel : ℕ) (f : Frame) (s : Scene tries) (back : List ℤ) (m : Machine T)
        → Holds (Settled (total_gas m)) (resume tries sha3 spare fuel f s back m)
    unfolding resume LoopSettles
    resume-Settled zero f s back m = Holds-out_of_fuel (Settled (total_gas m))
    resume-Settled (suc fuel) f s back m =
        let go : Loop tries sha3 spare = λ f' s' b m'. resume tries sha3 spare fuel f' s' b m' in
        Holds-here (Settled (total_gas m)) (run tries fuel f.env m) _ λ o e.
          subst (λ total. Holds (Settled total) (settle tries sha3 spare go f s back o))
            (run_conserves tries fuel f.env m o e)
            (settle-Settled go f s back o (resume-Settled fuel))

    -- However Call of a closure ends, with all the closures that it runs, its gas that is left and its
    -- used gas add up to the gas that it was given.
    pub call_closure_conserves :
        (fuel : ℕ) (f : Frame) (gas : ℤ) (s : Scene tries) (e : Ended tries)
        → call_closure tries sha3 spare fuel f gas s ≡ ok e
        → e.gas +ℤ e.used_gas ≡ gas
    unfolding call_closure enter start
    call_closure_conserves fuel f gas s e h =
        Holds-ok (Settled gas) _
          (Holds-bind (Settled gas) (cell tries f s) _ λ t.
            subst
              (λ total. Holds (Settled total) (resume tries sha3 spare fuel f s [] (start gas t)))
              (with_none gas) (resume-Settled fuel f s [] (start gas t)))
          h
