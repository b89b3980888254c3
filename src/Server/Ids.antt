-- ===== src/Server/Ids.antt =====
-- The ids that a server hands out.
use pynq_sdk.Prelude.{ℕ, suc, ◌+◌, ◌%◌, ◌<◌, ◌≡◌, ◌≢◌, refl, ap, List, [], ◌∷◌, ◌++◌, arith}
use pynq_sdk.Python.Dict.{nat_key}
use pynq_sdk.Server.{HislipServer, new_server, take_id, accept, forget}

-- What the connections to a server do.
pub data ServerOp : Type 0 where
  accept_op : ServerOp
  forget_op : ℕ → ServerOp

unfoldable pub run_server : List ServerOp → HislipServer → HislipServer
unfolding accept forget
run_server [] v = v
run_server (accept_op ∷ ops) v = run_server ops (accept v).1
run_server (forget_op id ∷ ops) v = run_server ops (forget id v)

unfoldable pub accepted : List ServerOp → ℕ
accepted [] = 0
accepted (accept_op ∷ ops) = suc (accepted ops)
accepted (forget_op id ∷ ops) = accepted ops

run_server-next :
    (ops : List ServerOp) (v : HislipServer) (n : ℕ)
    → v.next_session_id ≡ n % 0xFFFF + 1
    → (run_server ops v).next_session_id ≡ (n + accepted ops) % 0xFFFF + 1
unfolding run_server accepted take_id
run_server-next [] v n h = omega (arith, h)
run_server-next (accept_op ∷ ops) v n h =
    let later = run_server-next ops (accept v).1 (suc n) (unfold accept in omega (arith, h)) in
    omega (arith, later)
run_server-next (forget_op id ∷ ops) v n h =
    run_server-next ops (forget id v) n (unfold forget in h)

-- After any history of a server the id of the next session depends on the number of sessions
-- accepted so far alone: it counts from 1 to 65535, then starts again, whether the session of that
-- id still runs or not.
pub accept-run_server :
    (ops : List ServerOp) → (accept (run_server ops new_server)).0 ≡ accepted ops % 0xFFFF + 1
unfolding accept take_id
accept-run_server ops = omega (arith, run_server-next ops new_server 0 (unfold new_server in refl))

run_server-append :
    (ops more : List ServerOp) (v : HislipServer)
    → run_server (ops ++ more) v ≡ run_server more (run_server ops v)
unfolding run_server
run_server-append [] more v = refl
run_server-append (accept_op ∷ ops) more v = run_server-append ops more (accept v).1
run_server-append (forget_op id ∷ ops) more v = run_server-append ops more (forget id v)

accepted-append : (ops more : List ServerOp) → accepted (ops ++ more) ≡ accepted ops + accepted more
unfolding accepted
accepted-append [] more = omega arith
accepted-append (accept_op ∷ ops) more = omega (arith, accepted-append ops more)
accepted-append (forget_op id ∷ ops) more = accepted-append ops more

-- Two sessions of one server have different ids, unless at least 65534 others were accepted between
-- them.
pub accept-distinct :
    (before between : List ServerOp)
    → accepted between < 0xFFFE
    → (accept (run_server between (accept (run_server before new_server)).1)).0
      ≢ (accept (run_server before new_server)).0
unfolding run_server accepted
accept-distinct before between few same =
    let all = before ++ (accept_op ∷ between) in
    let first = accept-run_server before in
    let second = accept-run_server all in
    let count = accepted-append before (accept_op ∷ between) in
    let split =
      ap (λ v. (accept v).0) (run_server-append before (accept_op ∷ between) new_server) in
    omega (arith, first, second, count, split, same)
