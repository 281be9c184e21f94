-- ===== src/Network/Stopping.antt =====
-- What `Stop` of a peer leaves behind, and what it does when it is called again (peer.go,
-- `RemovePeer` of ethereum.go).
use goeth_self_training.Prelude.{
  ℕ, ◌+◌, ◌%◌, ◌^◌, ◌≡◌, ◌≢◌, ◌≤◌, ◌==◌, ◌&&◌, ◌||◌, refl, ◌∙◌, arith, Bool, true, false, not, List,
  [], ◌∷◌, if◌then◌else◌, All, Bool-cases, inl, inr,
}
use goeth_self_training.Prelude.Result.{
  ok, or_panic, Holds, Holds-intro, Holds-then, Holds-bind, Holds-cases, Holds-ok, Holds-panic,
}
use goeth_self_training.Wire.{Msg}
use goeth_self_training.Network.{
  Peer, Ethereum, Net, disc, update, member, remove_id, each_peer, remove_peer_element, remove_peer,
  write_to, try_write, count_disconnect, say_goodbye, shut_down, stop_peer,
}

-- No number stands twice in a list.
abbrev pub IsDistinct : List ℕ → Type 0
IsDistinct [] = Unit
IsDistinct (i ∷ is) = (member i is ≡ false) × IsDistinct is

same_id : (i : ℕ) → i == i ≡ true
same_id i = ground arith

remove_id-member : (i : ℕ) (is : List ℕ) → IsDistinct is → member i (remove_id i is) ≡ false
unfolding member remove_id
remove_id-member i [] d = refl
remove_id-member i (j ∷ is) (other, d) = elim (Bool-cases (j == i)) [
  | inl e ↦ let q : j ≡ i = ground arith in rw e (rw q at other)
  | inr e ↦ rw (e, e) (remove_id-member i is d)
]

-- Off the list, and the objects are as they were.
pub record IsOff (i : ℕ) (before after : Ethereum) : Type 0 where
  pub off : member i after.peers ≡ false
  pub at_eq : after.at ≡ before.at

each_peer-IsOff :
    (i : ℕ) (is : List ℕ) (n : Ethereum)
    → IsDistinct n.peers
    → All (λ j. member j n.peers ≡ true) is
    → (member i is ≡ false → member i n.peers ≡ false)
    → IsOff i n (each_peer (λ j m. if j == i then remove_peer_element j m else m) is n)
unfolding each_peer remove_peer_element member
each_peer-IsOff i [] n d all absent = record { off = absent refl; at_eq = refl }
each_peer-IsOff i (j ∷ is) n d (here, all) absent = elim (Bool-cases (j == i)) [
  | inl e ↦
      let q : j ≡ i = ground arith in
      let gone : member j (remove_id j n.peers) ≡ false = remove_id-member j n.peers d in
      rw (e, gone) (record { off = rw (← q) gone; at_eq = refl })
  | inr e ↦ rw (e, here) (each_peer-IsOff i is n d all (λ no'. absent (rw e no')))
]

own_members :
    (is js : List ℕ)
    → ((j : ℕ) → member j is ≡ true → member j js ≡ true)
    → All (λ j. member j js ≡ true) is
unfolding member
own_members [] js h = tt
own_members (i ∷ is) js h =
    (h i (rw (same_id i) refl), own_members is js (λ j m. h j (or_true (i == j) m)))
  where
    or_true : (a : Bool) {b : Bool} → b ≡ true → a || b ≡ true
    or_true true e = refl
    or_true false e = e

remove_peer-IsOff : (i : ℕ) (n : Ethereum) → IsDistinct n.peers → IsOff i n (remove_peer i n)
unfolding remove_peer
remove_peer-IsOff i n d =
    each_peer-IsOff i n.peers n d (own_members n.peers n.peers (λ j m. m)) (λ no'. no')

-- The peer `i` was told to quit, `Stop` was called once or twice, and the list is the one given.
record IsEnding (i : ℕ) (peers : List ℕ) (n : Ethereum) : Type 0 where
  quits : (n.at i).quit ≡ true
  calls : (1 ≤ (n.at i).disconnect) × ((n.at i).disconnect ≤ 2)
  peers_eq : n.peers ≡ peers

update-IsEnding :
    (i : ℕ) (peers : List ℕ) (f : Peer → Peer) (n : Ethereum)
    → (f (n.at i)).quit ≡ true
    → (1 ≤ (f (n.at i)).disconnect) × ((f (n.at i)).disconnect ≤ 2)
    → n.peers ≡ peers
    → IsEnding i peers (update i f n)
unfolding update
update-IsEnding i peers f n q c e = record {
  quits = rw (same_id i) q;
  calls = rw (same_id i) c;
  peers_eq = e;
}

module _ (net : Net) (i : ℕ) where
  -- What a write leaves of a peer: all but what was sent.
  abbrev Wrote : Ethereum → Bool × Ethereum → Type 0
  Wrote n (good, m) =
      ((m.at i).quit ≡ (n.at i).quit)
      × ((m.at i).disconnect ≡ (n.at i).disconnect)
      × (m.peers ≡ n.peers)

  try_write-Wrote : (msg : Msg) (n : Ethereum) → Holds (Wrote n) (try_write net msg i n)
  unfolding try_write write_to update
  try_write-Wrote msg n =
      Holds-cases (Wrote n)
        ((n.at i).connected == 1 && ((n.at i).version_known || msg.msg_type == 0)) _ _
        (λ e. Holds-bind (Wrote n) (or_panic (n.at i).conn) _ λ conn.
          elim (Bool-cases (not (n.at i).closed && net.accepts (n.at i).sent msg)) [
            | inl e' ↦ rw e' (Holds-intro (Wrote n) (true, _) (rw (same_id i) (refl, refl, refl)))
            | inr e' ↦ rw e' (Holds-intro (Wrote n) (false, n) (refl, refl, refl))
          ])
        (λ e. Holds-intro (Wrote n) (true, n) (refl, refl, refl))

  say_goodbye-IsEnding :
      (n : Ethereum)
      → (n.at i).quit ≡ true
      → (n.at i).disconnect ≡ 1
      → Holds (IsEnding i n.peers) (say_goodbye net i n)
  unfolding say_goodbye count_disconnect update
  say_goodbye-IsEnding n q d =
      Holds-then (Wrote n) (IsEnding i n.peers) (try_write net disc i n) _ (try_write-Wrote disc n)
        λ (good, m) (wq, wd, wp).
          Holds-intro (IsEnding i n.peers) _ (closing good m (wq ∙ q) (wd ∙ d) wp)
    where
      closing :
          (good : Bool) (m : Ethereum)
          → (m.at i).quit ≡ true
          → (m.at i).disconnect ≡ 1
          → m.peers ≡ n.peers
          → IsEnding i n.peers (
              update i (λ p. record p { closed = true }) (if good then m else count_disconnect i m))
      closing true m q d e =
          update-IsEnding i n.peers (λ p. record p { closed = true }) m q
            (rw d (omega arith, omega arith)) e
      closing false m q d e =
          update-IsEnding i n.peers (λ p. record p { closed = true }) (count_disconnect i m)
            (rw (same_id i) q) (rw (same_id i) (rw d (omega arith, omega arith))) e

  -- After the first `Stop`.
  pub record IsStopped (n : Ethereum) : Type 0 where
    pub quits : (n.at i).quit ≡ true
    pub off : member i n.peers ≡ false
    pub again : stop_peer net i n ≡ ok (count_disconnect i n)

  counted :
      (n : Ethereum) → ((count_disconnect i n).at i).disconnect ≡ ((n.at i).disconnect + 1) % 2 ^ 32
  unfolding count_disconnect update
  counted n = rw (same_id i) refl

  stop_again :
      (n : Ethereum)
      → (1 ≤ (n.at i).disconnect) × ((n.at i).disconnect ≤ 2)
      → stop_peer net i n ≡ ok (count_disconnect i n)
  unfolding stop_peer
  stop_again n c =
      let more : ((count_disconnect i n).at i).disconnect == 1 ≡ false =
        (rw (counted n) (let h = c.0 in let h' = c.1 in ground arith)) in
      rw more refl

  ending_stops :
      (peers : List ℕ) (m : Ethereum)
      → IsDistinct peers
      → IsEnding i peers m
      → IsStopped (remove_peer i m)
  ending_stops peers m d s =
      let o = remove_peer-IsOff i m (rw s.peers_eq d) in
      record {
        quits = rw o.at_eq s.quits;
        off = o.off;
        again = stop_again (remove_peer i m) (rw o.at_eq s.calls);
      }

  shut_down-IsStopped :
      (n : Ethereum)
      → IsDistinct n.peers
      → (n.at i).disconnect ≡ 1
      → Holds IsStopped (shut_down net i n)
  unfolding shut_down update
  shut_down-IsStopped n d once =
      let n' = update i (λ p. record p { quit = true }) n in
      let told : (n'.at i).quit ≡ true = rw (same_id i) refl in
      let once' : (n'.at i).disconnect ≡ 1 = rw (same_id i) once in
      Holds-cases IsStopped (n.at i).quit _ _ (λ e. Holds-panic IsStopped)
        λ e.
          Holds-then (IsEnding i n.peers) IsStopped
            (if (n.at i).connected == 0 then ok n' else say_goodbye net i n') _
            (Holds-cases (IsEnding i n.peers) ((n.at i).connected == 0) _ _
              (λ e'. Holds-intro (IsEnding i n.peers) n' (record {
                quits = told;
                calls = rw once' (omega arith, omega arith);
                peers_eq = refl;
              }))
              (λ e'. say_goodbye-IsEnding n' told once'))
            (λ m s. Holds-intro IsStopped _ (ending_stops n.peers m d s))

  -- The first `Stop` of a peer, where the list of peers has no peer twice and nothing panics: the
  -- peer is told to quit and is off the list, and `Stop` that is called again counts and does nothing
  -- else, also where the last message could not be written.
  pub stop_peer-IsStopped :
      (n n' : Ethereum)
      → IsDistinct n.peers
      → (n.at i).disconnect ≡ 0
      → stop_peer net i n ≡ ok n'
      → IsStopped n'
  unfolding stop_peer count_disconnect
  stop_peer-IsStopped n n' d never e =
      let once : ((count_disconnect i n).at i).disconnect ≡ 1 = rw (counted n) (rw never refl) in
      Holds-ok IsStopped _
        (Holds-cases IsStopped (((count_disconnect i n).at i).disconnect == 1) _ _
          (λ e'. shut_down-IsStopped (count_disconnect i n) d once)
          (λ e'.
            absurd (let q : ((count_disconnect i n).at i).disconnect ≢ 1 = ground arith in q once)))
        e
