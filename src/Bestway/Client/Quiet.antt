-- ===== src/Bestway/Client/Quiet.antt =====
-- What the client writes to the socket (backend/src/homeflow/integrations/bestway/client.py).
use homeflow.Base.{
  ℕ, suc, ◌+◌, ◌%◌, ◌≤◌, ◌≡◌, refl, ap, ◌∙◌, Bool, true, false, Option, none, some, List, [], ◌∷◌,
  ◌++◌, arith, ◌==◌, if◌then◌else◌, Bool-cases, Option-cases, inl, inr,
}
use homeflow.Bestway.Protocol.{Frame, encode, feed}
use homeflow.Bestway.Protocol.Fields.{
  encode_length_prefixed, decode_length_prefixed, build_control_payload,
}
use homeflow.Integrations.Flow.{
  Failure, Outcome, returned, failed, returns, continue_with, ◌>>=◌, or_fail,
}
use homeflow.Bestway.Client.{
  Client, Talk, request, heartbeat_request, heartbeat_response, close, drain_sent, write_frame,
  send, unsolicited, await_frame, in_time, await_answer, exchange, enter, login, close_on_failure,
  connect_with, connect, read_status, Read, control_request, send_control,
}

-- The control requests among the frames that were written.
abbrev pub controls : List Frame → ℕ
controls [] = 0
controls (f ∷ fs) = let n = controls fs in if f.command == control_request then suc n else n

controls-append : (fs gs : List Frame) → controls (fs ++ gs) ≡ controls fs + controls gs
controls-append [] gs = omega arith
controls-append (f ∷ fs) gs = ground (arith, controls-append fs gs)

-- A call that writes no control request.
abbrev pub Quiet : {A : Type 0} → Talk A → Type 0
Quiet m = (c : Client) → controls (m c).1.sent ≡ controls c.sent

pub bind-Quiet :
    {A B : Type 0} (m : Talk A) (f : A → Talk B)
    → Quiet m
    → ((a : A) → Quiet (f a))
    → Quiet (m >>= f)
bind-Quiet {A = A} {B = B} m f q r c = go (m c) (q c)
  where
    go :
        (x : Outcome A × Client)
        → controls x.1.sent ≡ controls c.sent
        → controls (continue_with f x).1.sent ≡ controls c.sent
    go (returned a, d) e = r a d ∙ e
    go (failed e, d) h = h

or_fail-Quiet : {A : Type 0} (o : Option A) (e : Failure) → Quiet (or_fail o e)
or_fail-Quiet none e c = refl
or_fail-Quiet (some a) e c = refl

drain_sent-sent : (ds : List Bool) (c : Client) → (drain_sent ds c).1.sent ≡ c.sent
drain_sent-sent [] c = refl
drain_sent-sent (true ∷ ds) c = refl
drain_sent-sent (false ∷ ds) c = refl

-- A frame is written at most once.
send_with :
    (o : Option (List ℕ)) (f : Frame) (c : Client)
    → controls (write_frame o f c).1.sent ≤ controls c.sent + controls (f ∷ [])
send_with none f c = omega arith
send_with (some bytes) f c =
    let e = ap controls (drain_sent-sent c.drains (record c { sent = c.sent ++ f ∷ [] })) in
    let h = controls-append c.sent (f ∷ []) in omega arith

-- A frame that is no control request leaves their number.
send_other :
    (o : Option (List ℕ)) (f : Frame) (c : Client)
    → controls (f ∷ []) ≡ 0
    → controls (write_frame o f c).1.sent ≡ controls c.sent
send_other none f c z = refl
send_other (some bytes) f c z =
    let e = ap controls (drain_sent-sent c.drains (record c { sent = c.sent ++ f ∷ [] })) in
    let h = controls-append c.sent (f ∷ []) in omega arith

pub send_bounded :
    (f : Frame) (c : Client) → controls (send f c).1.sent ≤ controls c.sent + controls (f ∷ [])
unfolding send
send_bounded f c = go c.is_connected
  where
    go :
        (b : Bool)
        → controls
            (if b then write_frame (encode f) f c else (failed Failure.unavailable, c)).1.sent
          ≤ controls c.sent + controls (f ∷ [])
    go true = send_with (encode f) f c
    go false = omega arith

pub send-Quiet : (f : Frame) → controls (f ∷ []) ≡ 0 → Quiet (send f)
unfolding send
send-Quiet f z c = go c.is_connected
  where
    go :
        (b : Bool)
        → controls
            (if b then write_frame (encode f) f c else (failed Failure.unavailable, c)).1.sent
          ≡ controls c.sent
    go true = send_other (encode f) f c z
    go false = refl

unsolicited-Quiet : (f : Frame) → Quiet (unsolicited f)
unfolding unsolicited
unsolicited-Quiet f c = elim (Bool-cases (f.command == heartbeat_request)) [
  | inl p ↦ rw p (send-Quiet (request heartbeat_response []) refl c)
  | inr p ↦ rw p (refl)
]

passed_over :
    (b : Bool) (o : Outcome (Unit {0})) (payload : List ℕ) (c d : Client)
    (r : Outcome (List ℕ) × Client)
    → controls d.sent ≡ controls c.sent
    → controls r.1.sent ≡ controls c.sent
    → controls
        (if◌then◌else◌ {A = Outcome (List ℕ) × Client} b
          (returned payload, c)
          (elim o [ returned _ ↦ r | failed e ↦ (failed e, d) ])).1.sent
      ≡ controls c.sent
passed_over true o payload c d r q h = refl
passed_over false (returned _) payload c d r q h = h
passed_over false (failed e) payload c d r q h = q

-- Whatever arrives while a frame is awaited, nothing but heartbeats is written.
await_frame-Quiet :
    (wanted : ℕ) (reads : List Read) (fs : List Frame) → Quiet (await_frame wanted reads fs)
unfolding await_frame
await_frame-Quiet wanted reads (f ∷ fs) c =
    let c₁ = record c { pending = fs; reads = reads } in
    let q = unsolicited-Quiet f c₁ in
    let rest = await_frame-Quiet wanted reads fs (unsolicited f c₁).1 in
    passed_over (f.command == wanted) (unsolicited f c₁).0 f.payload c₁ (unsolicited f c₁).1
      (await_frame wanted reads fs (unsolicited f c₁).1) q (rest ∙ q)
await_frame-Quiet wanted [] [] c = refl
await_frame-Quiet wanted (Read.os_error ∷ reads) [] c = refl
await_frame-Quiet wanted (Read.chunk [] ∷ reads) [] c = refl
await_frame-Quiet wanted (Read.chunk (b ∷ bs) ∷ reads) [] c =
    elim (Option-cases (feed c.buffer (b ∷ bs)).0) [
      | inl p ↦ rw (p, await_frame) refl
      | inr (fs, p) ↦
          rw (p, await_frame)
            (await_frame-Quiet wanted reads fs (record c { buffer = (feed c.buffer (b ∷ bs)).1 }))
    ]

in_time-sent : {A : Type 0} (x : Outcome A × Client) → (in_time x).1.sent ≡ x.1.sent
in_time-sent (returned a, c) = refl
in_time-sent (failed Failure.unavailable, c) = refl
in_time-sent (failed Failure.misbehaved, c) = refl
in_time-sent (failed Failure.protocol_error, c) = refl
in_time-sent (failed Failure.rejected, c) = refl
in_time-sent (failed Failure.validation_error, c) = refl
in_time-sent (failed Failure.timed_out, c) = refl

await_answer-Quiet : (wanted : ℕ) → Quiet (await_answer wanted)
unfolding await_answer
await_answer-Quiet wanted c =
    ap controls (in_time-sent (await_frame wanted c.reads c.pending c))
    ∙ await_frame-Quiet wanted c.reads c.pending c

exchange-Quiet : (f : Frame) (wanted : ℕ) → controls (f ∷ []) ≡ 0 → Quiet (exchange f wanted)
unfolding exchange
exchange-Quiet f wanted z =
    bind-Quiet (send f) (λ _. await_answer wanted) (send-Quiet f z) (λ _. await_answer-Quiet wanted)

pub read_status-Quiet : Quiet read_status
unfolding read_status
read_status-Quiet = exchange-Quiet (request 144 (2 ∷ [])) 145 refl

enter-Quiet : (passcode : List ℕ) → Quiet (enter passcode)
unfolding enter
enter-Quiet passcode c =
    bind-Quiet (or_fail (encode_length_prefixed passcode) Failure.protocol_error)
      (λ field. exchange (request 8 field) 9 >>= λ _. returns tt)
      (or_fail-Quiet (encode_length_prefixed passcode) Failure.protocol_error)
      (λ field.
        bind-Quiet (exchange (request 8 field) 9) (λ _. returns tt)
          (exchange-Quiet (request 8 field) 9 refl) (λ _ c'. refl))
      (record c { passcode = passcode })

login-Quiet : Quiet login
unfolding login
login-Quiet =
    bind-Quiet (exchange (request 6 []) 7)
      (λ answer. or_fail (decode_length_prefixed answer) Failure.protocol_error >>= enter)
      (exchange-Quiet (request 6 []) 7 refl)
      (λ answer.
        bind-Quiet (or_fail (decode_length_prefixed answer) Failure.protocol_error) enter
          (or_fail-Quiet (decode_length_prefixed answer) Failure.protocol_error) enter-Quiet)

close_on_failure-sent :
    {A : Type 0} (x : Outcome A × Client) → (close_on_failure x).1.sent ≡ x.1.sent
unfolding close
close_on_failure-sent (returned a, c) = refl
close_on_failure-sent (failed e, c) = refl

connect_with-Quiet : (cs : List Bool) → Quiet (connect_with cs)
connect_with-Quiet [] c = refl
connect_with-Quiet (false ∷ cs) c = refl
connect_with-Quiet (true ∷ cs) c =
    let d = record c { connects = cs; is_connected = true; buffer = []; pending = [] } in
    ap controls (close_on_failure-sent (login d)) ∙ login-Quiet d

pub connect-Quiet : Quiet connect
unfolding connect close
connect-Quiet c = connect_with-Quiet c.connects (close c)

-- One control request at most is written for a write.
pub send_control_bounded :
    (attr_flags : ℕ) (attr_vals : List ℕ) (c : Client)
    → controls (send_control attr_flags attr_vals c).1.sent ≤ controls c.sent + 1
unfolding send_control
send_control_bounded attr_flags attr_vals c =
    let c' = record c { sequence = (c.sequence + 1) % 4294967296 } in
    go (build_control_payload c'.sequence attr_flags attr_vals) c'
  where
    go :
        (o : Option (List ℕ)) (d : Client)
        → controls
            ((or_fail o Failure.protocol_error >>= λ payload.
                send (request control_request payload))
              d).1.sent
          ≤ controls d.sent + 1
    go none d = omega arith
    go (some payload) d = send_bounded (request control_request payload) d
