-- ===== src/Client/MountState/Watch.antt =====
-- How a lost connection ends the mount of crates/netfilum-client/src/mount.rs.
use netfilum.Prelude.{
  ℕ, suc, zero, ◌≡◌, ◌≢◌, refl, subst, arith, Bool-cases, true, false, Option-cases, inl, inr, some,
  none, Option, ◌++◌,
}
use netfilum.Prelude.Texts.{Text, codes}
use netfilum.Prelude.Results.{ok, err}
use netfilum.Protocol.Errors.{IoResult}
use netfilum.Client.MountState.{first_message, server_disconnected, shutdown_reason}
use netfilum.Client.MountState.Shutdown.{
  Mount, begun, Steps, here, next, watching, reporting, finished, monitor_ends, monitor_reports,
  polling, returned, keep_message, after_end, ended_text, Steps-trans, stores, wakes, returns,
  woken, Steps-IsSound,
}

-- The main thread reads the state and returns.
Steps-stopped :
    (s : Mount) (text : Text)
    → s.main ≡ polling
    → s.stop ≡ true
    → s.message ≡ some text
    → (t : Mount) × Steps s t
      × (t.main ≡ returned (server_disconnected text))
      × (t.pressed ≡ s.pressed)
unfolding shutdown_reason
Steps-stopped s text m p k =
    let u = record s { main = woken } in
    (
      record u { main = returned (shutdown_reason s.message) },
      next (next here (wakes m p)) (returns refl),
      ground arith,
      refl,
    )

positive : (n : ℕ) → n ≢ 0 → (m : ℕ) × (n ≡ suc m)
positive zero h = absurd (h refl)
positive (suc n) h = (n, refl)

-- Once a thread has reported a lost connection, in any state that can be reached, the steps that are
-- due lead the main thread out of its loop, with that message, without Ctrl-C.
pub Steps-returned :
    {s : Mount} (text : Text)
    → Steps begun s
    → s.main ≡ polling
    → s.message ≡ some text
    → (t : Mount) × Steps s t
      × (t.main ≡ returned (server_disconnected text))
      × (t.pressed ≡ s.pressed)
Steps-returned {s = s} text r m k = elim (Bool-cases s.stop) [
  | inl p ↦ Steps-stopped s text m p k
  | inr p ↦
      let (n, e) = positive s.storing λ z. ground (arith, (Steps-IsSound r).pending p z) in
      let (t, q, done, same) =
        Steps-stopped (record s { storing = n; stop = true }) text m refl k in
      (t, Steps-trans (next here (stores n e)) q, done, same)
]

-- A state in which the main thread has returned that the server is gone, with a message and without
-- Ctrl-C.
pub record HasLeft (s : Mount) (message : Text) : Type 0 where
  pub state : Mount
  pub steps : Steps s state
  pub left : state.main ≡ returned (server_disconnected message)
  pub pressed : state.pressed ≡ s.pressed

-- The report that a mount ends with whose monitor's connection to an address ends or fails: the one
-- that is kept already, and else that of the monitor.
abbrev pub IsLeaving : Option Text → Text → IoResult (Unit {0}) → Text → Type 0
IsLeaving (some old) addr outcome message = message ≡ old
IsLeaving none addr (ok u) message = message ≡ codes "lost connection to server at " ++ addr
IsLeaving none addr (err e) message =
    message ≡ codes "monitor connection failed at " ++ (addr ++ (codes ": " ++ e.message))

kept-IsLeaving :
    (kept : Option Text) (addr : Text) (outcome : IoResult (Unit {0})) (message : Text)
    → first_message kept (ended_text addr outcome) ≡ some message
    → IsLeaving kept addr outcome message
kept-IsLeaving (some old) addr outcome message h = ground arith
kept-IsLeaving none addr (ok u) message h = ground arith
kept-IsLeaving none addr (err e) message h = ground arith

-- Where the monitor's connection ends or fails while the mount does not stop, the steps that are due
-- lead the main thread out of its loop with the monitor's report, "lost connection to server at" the
-- address or "monitor connection failed at" it with the error's text, unless an earlier report is
-- kept, and then with that.
pub Steps-HasLeft :
    (addr : Text) (outcome : IoResult (Unit {0})) {s : Mount}
    → Steps begun s
    → s.monitor ≡ watching
    → s.main ≡ polling
    → s.stop ≡ false
    → (message : Text) × IsLeaving s.message addr outcome message × HasLeft s message
Steps-HasLeft addr outcome {s = s} r m p q =
    let text = ended_text addr outcome in
    let u = record s { monitor = reporting text } in
    let v = keep_message text (record u { monitor = finished }) in
    let ends : Steps s u =
      subst (λ x. Steps s (record s { monitor = after_end x text })) q
        (next here (monitor_ends addr outcome m)) in
    let reports : Steps s v = next ends (monitor_reports text refl) in
    elim (Option-cases v.message) [
      | inl h ↦ absurd (ground arith)
      | inr (message, h) ↦
          let (t, steps, left, pressed) = Steps-returned message (Steps-trans r reports) p h in
          (
            message,
            kept-IsLeaving s.message addr outcome message h,
            record { state = t; steps = Steps-trans reports steps; left = left; pressed = pressed },
          )
    ]
