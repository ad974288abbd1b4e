-- ===== src/System/Sends.antt =====
-- From `runtime_send_callback` of src/runtime.rs over its channel to the socket tasks of src/io.rs.
use gmv_pjsip.Prelude.{
  ℕ, ◌+◌, ◌≤◌, ◌≡◌, refl, sym, ap, ◌∙◌, List, [], ◌∷◌, ◌++◌, some, arith, ◌==◌, if◌then◌else◌, inl,
  inr,
}
use gmv_pjsip.Prelude.Int.{ℤ, pos, negsuc, is_zero}
use gmv_pjsip.Transport.{SocketAddr}
use gmv_pjsip.Runtime.Types.{SipTransmit}
use gmv_pjsip.Runtime.State.{SendResult}
use gmv_pjsip.Runtime.Copies.{SendPacket, copy_packet}
use gmv_pjsip.Runtime.Callbacks.{TransmitState, runtime_send_callback}
use gmv_pjsip.Runtime.Callbacks.Delivery.{runtime_send_callback-Outcome}
use gmv_pjsip.Io.Transmit.Completions.{one_if, waiting, owed, reported, waiting-append}
use gmv_pjsip.Io.Connections.{
  Sockets, queued, tcp_accepted, transmit_taken, Step, transmit, started,
}
use gmv_pjsip.Io.Connections.Sends.{
  taken_in, known, Step-known, tcp_accepted-known, reported-append_all,
}
use gmv_pjsip.Io.Connections.Sends.Kept.{IsSmooth, Step-keeps}

abbrev pub recorded : ℤ → ℕ → List ℕ → List ℕ
recorded status send_id ids = if is_zero status then send_id ∷ ids else ids

abbrev pub occurrences : ℕ → List ℕ → ℕ
occurrences n [] = 0
occurrences n (k ∷ ks) = one_if (k == n) + occurrences n ks

abbrev sending :
    (s : Sockets) (answer : SendResult) (t : SipTransmit) → Step s (transmit_taken answer t s)
sending s answer t = transmit answer t

module _ (event_size packet_size : ℕ) where
  -- The runs of the callback and the socket tasks, from an empty channel. The list holds the numbers of
  -- the sends for which the callback reported success, the last one first.
  pub data SendRun (capacity : ℕ) : List ℕ → TransmitState → Sockets → Type 0 where
    begin :
        (state : TransmitState) → state.queue ≡ [] → SendRun capacity [] state (started capacity)
    callback :
        {ids : List ℕ} {state state' : TransmitState} {s : Sockets} (p : SendPacket) (status : ℤ)
        → runtime_send_callback event_size packet_size (some p) (some state) ≡ (status, some state')
        → SendRun capacity ids state s
        → SendRun capacity (recorded status p.send_id ids) state' s
    receive :
        {ids : List ℕ} {state : TransmitState} {s : Sockets} (answer : SendResult) (t : SipTransmit)
        (ts : List SipTransmit)
        → state.queue ≡ t ∷ ts
        → SendRun capacity ids state s
        → SendRun capacity ids (record state { queue = ts }) (transmit_taken answer t s)
    accept :
        {ids : List ℕ} {state : TransmitState} {s : Sockets} (remote_addr : SocketAddr)
        → SendRun capacity ids state s
        → SendRun capacity ids state (tcp_accepted remote_addr s)
    sockets :
        {ids : List ℕ} {state : TransmitState} {s t : Sockets} (st : Step s t)
        → taken_in st ≡ []
        → SendRun capacity ids state s
        → SendRun capacity ids state t

  -- Whether every report of a send found room in the queue, and every write succeeded.
  abbrev pub AllSmooth :
      {capacity : ℕ} {ids : List ℕ} {state : TransmitState} {s : Sockets}
      → SendRun capacity ids state s
      → Type 0
  AllSmooth (begin state e) = Unit
  AllSmooth (callback p status e r) = AllSmooth r
  AllSmooth (receive {s = s} answer t ts e r) = AllSmooth r × IsSmooth (sending s answer t)
  AllSmooth (accept remote_addr r) = AllSmooth r
  AllSmooth (sockets st e r) = AllSmooth r × IsSmooth st

  copy_packet-send_id :
      (p : SendPacket) (t : SipTransmit) → copy_packet p ≡ some t → t.send_id ≡ p.send_id
  unfolding copy_packet
  copy_packet-send_id p t e = ground arith

  callback-waiting :
      (n : ℕ) (p : SendPacket) (status : ℤ) (ids : List ℕ) (state state' : TransmitState)
      → runtime_send_callback event_size packet_size (some p) (some state) ≡ (status, some state')
      → waiting n state'.queue + occurrences n ids
        ≡ waiting n state.queue + occurrences n (recorded status p.send_id ids)
  callback-waiting n p status ids state state' h =
      elim (runtime_send_callback-Outcome event_size packet_size p state) [
        | inl (t, e, _, _, _, _, c) ↦
            let zeroed : pos 0 ≡ status = ap (λ x. x.0) (sym c ∙ h) in
            let same : some (record state { queue = state.queue ++ (t ∷ []) }) ≡ some state' =
              ap (λ x. x.1) (sym c ∙ h) in
            let whole : record state { queue = state.queue ++ (t ∷ []) } ≡ state' = cc in
            let number = copy_packet-send_id p t e in
            rw (← zeroed, ← whole, ← number) (omega (arith, waiting-append n state.queue t))
        | inr c ↦
            let failed : negsuc 0 ≡ status = ap (λ x. x.0) (sym c ∙ h) in
            let same : some state ≡ some state' = ap (λ x. x.1) (sym c ∙ h) in
            let whole : state ≡ state' = cc in rw (← failed, ← whole) refl
      ]

  SendRun-known :
      {capacity : ℕ} {ids : List ℕ} {state : TransmitState} {s : Sockets} (n : ℕ)
      → SendRun capacity ids state s
      → known n s + waiting n state.queue ≤ occurrences n ids
  SendRun-known n (begin state e) = rw e (omega arith)
  SendRun-known n (callback {ids = ids} {state = state} {state' = state'} p status e r) =
      omega (arith, SendRun-known n r, callback-waiting n p status ids state state' e)
  SendRun-known n (receive {s = s} answer t ts e r) =
      omega (arith, SendRun-known n r, Step-known n (sending s answer t), ap (waiting n) e)
  SendRun-known n (accept {s = s} remote_addr r) =
      omega (arith, SendRun-known n r, tcp_accepted-known n remote_addr s)
  SendRun-known n (sockets st e r) =
      omega (arith, SendRun-known n r, Step-known n st, ap (waiting n) e)

  SendRun-keeps :
      {capacity : ℕ} {ids : List ℕ} {state : TransmitState} {s : Sockets} (n : ℕ)
      (r : SendRun capacity ids state s)
      → AllSmooth r
      → known n s + waiting n state.queue ≡ occurrences n ids
  SendRun-keeps n (begin state e) q = rw e refl
  SendRun-keeps n (callback {ids = ids} {state = state} {state' = state'} p status e r) q =
      omega (arith, SendRun-keeps n r q, callback-waiting n p status ids state state' e)
  SendRun-keeps n (receive {s = s} answer t ts e r) (q, room) =
      omega (arith, SendRun-keeps n r q, Step-keeps n (sending s answer t) room, ap (waiting n) e)
  SendRun-keeps n (accept {s = s} remote_addr r) q =
      omega (arith, SendRun-keeps n r q, tcp_accepted-known n remote_addr s)
  SendRun-keeps n (sockets st e r) (q, smooth) =
      omega (arith, SendRun-keeps n r q, Step-keeps n st smooth, ap (waiting n) e)

  -- However the callback and the socket tasks take turns, at a queue and a channel of any capacity: the
  -- completions of a send that were ever queued, and the copies of it that wait in the channel or at a
  -- writer, are together no more than the times that the callback reported success for it. So a send
  -- that the callback refused never completes, and one accepted once completes at most once.
  pub SendRun-reported :
      {capacity : ℕ} {ids : List ℕ} {state : TransmitState} {s : Sockets} (n : ℕ)
      → SendRun capacity ids state s
      → reported n (queued s) + owed n s.tasks.writers + owed n s.detached + waiting n state.queue
        ≤ occurrences n ids
  SendRun-reported {s = s} n r =
      omega (arith, SendRun-known n r, reported-append_all n s.taken s.tasks.commands)

  -- As long as every write to a stream succeeds, and the queue has room whenever a send is taken off the
  -- channel or written: no send that the callback accepted is lost, however the callback and the socket
  -- tasks take turns. The completions of it that were ever queued, and the copies of it that wait in the
  -- channel or at a writer, are together as many as the times that the callback reported success.
  pub SendRun-accounts :
      {capacity : ℕ} {ids : List ℕ} {state : TransmitState} {s : Sockets} (n : ℕ)
      (r : SendRun capacity ids state s)
      → AllSmooth r
      → reported n (queued s) + owed n s.tasks.writers + owed n s.detached + waiting n state.queue
        ≡ occurrences n ids
  SendRun-accounts {s = s} n r q =
      omega (arith, SendRun-keeps n r q, reported-append_all n s.taken s.tasks.commands)
