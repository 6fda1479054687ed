-- ===== src/Edge/Sync/Trace/Fifo.antt =====
-- The order of the messages, over any sequence of calls.
use areamy.Common.{
  ◌≡◌, refl, ap, sym, ◌∙◌, true, List, [], ◌∷◌, ◌++◌, arith, append-nil, append_assoc,
}
use areamy.Edge.Sync.{Shared}
use areamy.Edge.Sync.Trace.{Call, call, run, try_pushes}

module _ {ℓ} {M : Type ℓ} where
  call-fifo :
      (s : Shared M) (c : Call M)
      → s.buffer ++ (call s c).accepted ≡ (call s c).taken ++ (call s c).shared.buffer
  unfolding call
  call-fifo s (try_pushes h m) = ground (arith, append-nil s.buffer)
  call-fifo s c = ground (arith, append-nil s.buffer)

  -- Whatever the calls, the messages that were queued, followed by those accepted since, are those
  -- taken, followed by those still queued: none is lost, repeated or overtaken.
  pub run-fifo :
      (s : Shared M) (cs : List (Call M))
      → s.buffer ++ (run s cs).accepted ≡ (run s cs).taken ++ (run s cs).shared.buffer
  unfolding run
  run-fifo s [] = append-nil s.buffer
  run-fifo s (c ∷ cs) =
      let first = call s c in
      let rest = run first.shared cs in
      sym (append_assoc s.buffer first.accepted rest.accepted)
      ∙ ap (λ b. b ++ rest.accepted) (call-fifo s c)
      ∙ append_assoc first.taken first.shared.buffer rest.accepted
      ∙ ap (λ b. first.taken ++ b) (run-fifo first.shared cs)
      ∙ sym (append_assoc first.taken rest.taken rest.shared.buffer)

  -- A closed edge takes nothing more and stays closed.
  call-closed :
      (s : Shared M) (c : Call M)
      → s.is_closed ≡ true
      → ((call s c).accepted ≡ []) × ((call s c).shared.is_closed ≡ true)
  unfolding call
  call-closed s (try_pushes h m) e = ground arith
  call-closed s c e = ground arith

  -- Once an edge is closed, no call pushes anything, and what was queued at the close is what is
  -- taken, in order, with what is left.
  run-closed :
      (s : Shared M) (cs : List (Call M))
      → s.is_closed ≡ true
      → ((run s cs).accepted ≡ [])
        × (s.buffer ≡ (run s cs).taken ++ (run s cs).shared.buffer)
        × ((run s cs).shared.is_closed ≡ true)
  unfolding run
  run-closed s [] e = (refl, refl, e)
  run-closed s (c ∷ cs) e =
      let now = call-closed s c e in
      let (none_later, _, still) = run-closed (call s c).shared cs now.1 in
      let none_at_all : (run s (c ∷ cs)).accepted ≡ [] = rw (now.0, none_later) in
      (
        none_at_all,
        sym (append-nil s.buffer) ∙ ap (λ b. s.buffer ++ b) (sym none_at_all) ∙ run-fifo s (c ∷ cs),
        still,
      )
