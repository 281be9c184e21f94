-- ===== src/Network/Steps/Keeping.antt =====
-- What single moves keep is kept by every run of the goroutines (peer.go, ethereum.go).
use goeth_self_training.Prelude.{ℕ, List, subst}
use goeth_self_training.Prelude.Result.{Holds-ok}
use goeth_self_training.Trie.{Trie}
use goeth_self_training.StateManager.Apply.{Given}
use goeth_self_training.Network.{Ethereum, Net, ping}
use goeth_self_training.Network.Stable.{Silent, Stable, stop_peer-keeps, write_message-keeps}
use goeth_self_training.Network.Stable.Lists.{
  reap_peers-keeps, dialed-keeps, add_peer-keeps, new_peer-Silent, join_peer-keeps,
  push_outbound-keeps, connect_to_peer-keeps,
}
use goeth_self_training.Network.Stable.Talk.{send_queued-keeps, on_service-keeps}
use goeth_self_training.Network.Stable.Handling.{Managed, handle_message-keeps}
use goeth_self_training.Network.Steps.{
  Step, received, sends, pinged, serviced, ended, accepted, joins, links, connects, dials, reaped,
  Run, here, and_then,
}

module _ (tries : Trie) (given : Given) (keccak : List ℕ → List ℕ) (rounded : ℕ → ℕ) (net : Net)
    (fuel depth : ℕ) (P : Ethereum → Type 0) (keeps : Stable P)
    (managed : Managed tries given keccak fuel depth P) where
  step-keeps : (n n' : Ethereum) → Step tries given keccak rounded net fuel depth n n' → P n → P n'
  step-keeps n n' (received m msg i e) q =
      Holds-ok P _
        (handle_message-keeps tries given keccak fuel depth P keeps rounded net m msg i n
          (λ _. managed) q)
        e
  step-keeps n n' (sends i e) q = Holds-ok P _ (send_queued-keeps P keeps net i n q) e
  step-keeps n n' (pinged i e) q = Holds-ok P _ (write_message-keeps P keeps net ping i n q) e
  step-keeps n n' (serviced now i e) q = Holds-ok P _ (on_service-keeps P keeps net now i n q) e
  step-keeps n n' (ended i e) q = Holds-ok P _ (stop_peer-keeps P keeps net i n q) e
  step-keeps n n' (accepted conn e) q = Holds-ok P _ (add_peer-keeps P keeps net conn n q) e
  step-keeps n n' (joins conn peer m made e) q =
      let silent = Holds-ok Silent _ (new_peer-Silent P keeps net conn m) made in
      Holds-ok P _ (join_peer-keeps P keeps net peer n silent q) e
  step-keeps n n' (links m e) q = subst P e (push_outbound-keeps P keeps net m n q)
  step-keeps n n' (connects choice addr e) q =
      subst P e (connect_to_peer-keeps P keeps net choice addr n q)
  step-keeps n n' (dials o i e) q = Holds-ok P _ (dialed-keeps P keeps net o i n q) e
  step-keeps n n' (reaped now e) q = subst P e (reap_peers-keeps P keeps now n q)

  pub run-keeps :
      (n n' : Ethereum) → Run tries given keccak rounded net fuel depth n n' → P n → P n'
  run-keeps n _ here p = p
  run-keeps n _ (and_then m m' run step) p = step-keeps m m' step (run-keeps n m run p)
