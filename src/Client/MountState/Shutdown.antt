-- ===== src/Client/MountState/Shutdown.antt =====
-- The threads of a mount in crates/netfilum-client/src/mount.rs: the requests, the thread of
-- `spawn_connection_monitor`, the Ctrl-C handler and the main thread in `wait_for_shutdown`. The two
-- writes of `report_disconnect`, and the two reads of the main thread, are steps of their own. The lock
-- that `report_disconnect` holds over both writes only takes turns away.
use netfilum.Prelude.{ℕ, suc, ◌≡◌, ◌≢◌, refl, arith, Bool, true, false, Option, none, some, ◌++◌}
use netfilum.Prelude.Texts.{Text, codes}
use netfilum.Prelude.Results.{ok, err}
use netfilum.Protocol.Errors.{IoError, IoResult}
use netfilum.Client.MountState.{
  MountState, initial, first_message, is_disconnect_error, note_error, report_disconnect,
}
use netfilum.Client.MountState.{ShutdownReason, interrupted, server_disconnected, shutdown_reason}

pub data Monitor : Type 0 where
  watching : Monitor
  reporting : Text → Monitor
  finished : Monitor

pub data Main : Type 0 where
  polling woken : Main
  returned : ShutdownReason → Main

-- `storing` counts the threads inside `report_disconnect` that have yet to store `stop`; `pressed`
-- says that Ctrl-C was pressed.
pub record Mount : Type 0 where
  pub stop : Bool
  pub message : Option Text
  pub storing : ℕ
  pub monitor : Monitor
  pub main : Main
  pub pressed : Bool

abbrev pub begun : Mount
begun = record {
  stop = initial.stop;
  message = initial.disconnect_message;
  storing = 0;
  monitor = watching;
  main = polling;
  pressed = false;
}

-- The first half of `report_disconnect`.
abbrev pub keep_message : Text → Mount → Mount
keep_message text s = record s { message = first_message s.message text; storing = suc s.storing }

-- What the monitor thread reports of how `wait_for_disconnect` ends.
abbrev pub ended_text : Text → IoResult (Unit {0}) → Text
ended_text addr (ok u) = codes "lost connection to server at " ++ addr
ended_text addr (err error) =
    codes "monitor connection failed at " ++ (addr ++ (codes ": " ++ error.message))

-- What the monitor thread does when its connection has ended: nothing, if the mount stops anyway.
abbrev pub after_end : Bool → Text → Monitor
after_end true text = finished
after_end false text = reporting text

pub data Step (s : Mount) : Mount → Type 0 where
  request_fails :
      (e : IoError)
      → is_disconnect_error e ≡ true
      → Step s (keep_message (codes "lost connection to server: " ++ e.message) s)
  stores : (n : ℕ) → s.storing ≡ suc n → Step s (record s { storing = n; stop = true })
  monitor_ends :
      (addr : Text) (outcome : IoResult (Unit {0}))
      → s.monitor ≡ watching
      → Step s (record s { monitor = after_end s.stop (ended_text addr outcome) })
  monitor_reports :
      (text : Text)
      → s.monitor ≡ reporting text
      → Step s (keep_message text (record s { monitor = finished }))
  ctrl_c : Step s (record s { stop = true; pressed = true })
  wakes : s.main ≡ polling → s.stop ≡ true → Step s (record s { main = woken })
  returns : s.main ≡ woken → Step s (record s { main = returned (shutdown_reason s.message) })

-- One state after another.
pub data Steps (s : Mount) : Mount → Type 0 where
  here : Steps s s
  next : {t u : Mount} → Steps s t → Step t u → Steps s u

-- The main thread stops only where there is a reason, and returns the reason that there is.
pub record IsSound (s : Mount) : Type 0 where
  pub stored : s.stop ≡ true → s.message ≡ none → s.pressed ≡ true
  pub kept : s.message ≡ none → s.storing ≡ 0
  pub awake : s.main ≢ polling → s.stop ≡ true
  pub interruption : s.main ≡ returned interrupted → s.pressed ≡ true
  pub pending : s.stop ≡ false → s.storing ≡ 0 → s.message ≡ none
  pub reason : (text : Text) → s.main ≡ returned (server_disconnected text) → s.message ≡ some text

begun-IsSound : IsSound begun
begun-IsSound = record {
  stored = λ h k. absurd (ground arith);
  kept = λ h. refl;
  awake = λ h. absurd (h refl);
  interruption = λ h. absurd (ground arith);
  pending = λ h k. refl;
  reason = λ text h. absurd (ground arith);
}

Step-IsSound : {s t : Mount} → IsSound s → Step s t → IsSound t
unfolding shutdown_reason
Step-IsSound i (stores n h) = record {
  stored = λ u v. ground (arith, i.stored, i.kept);
  kept = λ u. ground (arith, i.kept);
  awake = λ u. ground (arith, i.awake);
  interruption = λ u. ground (arith, i.interruption, i.stored, i.awake);
  pending = λ u v. ground (arith, i.pending);
  reason = λ word u. ground (arith, i.reason word);
}
Step-IsSound i (wakes h k) = record {
  stored = λ u v. ground (arith, i.stored, i.kept);
  kept = λ u. ground (arith, i.kept);
  awake = λ u. ground (arith, i.awake);
  interruption = λ u. ground (arith, i.interruption, i.stored, i.awake);
  pending = λ u v. ground (arith, i.pending);
  reason = λ word u. ground (arith, i.reason word);
}
Step-IsSound i (returns h) = record {
  stored = λ u v. ground (arith, i.stored, i.kept);
  kept = λ u. ground (arith, i.kept);
  awake = λ u. ground (arith, i.awake);
  interruption = λ u. ground (arith, i.interruption, i.stored, i.awake);
  pending = λ u v. ground (arith, i.pending);
  reason = λ word u. ground (arith, i.reason word);
}
Step-IsSound i _ = record {
  stored = λ u v. ground (arith, i.stored, i.kept);
  kept = λ u. ground (arith, i.kept);
  awake = λ u. ground (arith, i.awake);
  interruption = λ u. ground (arith, i.interruption, i.stored, i.awake);
  pending = λ u v. ground (arith, i.pending);
  reason = λ word u. ground (arith, i.reason word);
}

-- However the threads take turns: the main thread returns `Interrupted` only if Ctrl-C was pressed,
-- and `ServerDisconnected` only with the message that is kept; it leaves its loop only once `stop`
-- is set, which without a message only Ctrl-C does.
pub Steps-IsSound : {t : Mount} → Steps begun t → IsSound t
Steps-IsSound here = begun-IsSound
Steps-IsSound (next r h) = Step-IsSound (Steps-IsSound r) h

Step-message :
    {s t : Mount} {text : Text} → s.message ≡ some text → Step s t → t.message ≡ some text
Step-message k (request_fails e h) = ground arith
Step-message k (stores n h) = k
Step-message k (monitor_ends addr outcome h) = k
Step-message k (monitor_reports text h) = ground arith
Step-message k ctrl_c = k
Step-message k (wakes h h') = k
Step-message k (returns h) = k

-- The first message stays: no later report, by whichever thread, replaces it.
pub Steps-message :
    {s t : Mount} {text : Text} → Steps s t → s.message ≡ some text → t.message ≡ some text
Steps-message here k = k
Steps-message (next r h) k = Step-message (Steps-message r k) h

-- The part of the state that `MountState` has.
abbrev pub shared : Mount → MountState
shared s = record { stop = s.stop; disconnect_message = s.message }

-- A request that fails because the connection is lost takes two steps, which together do to the shared
-- state what `map_rpc_error` does.
pub Steps-note_error :
    (e : IoError) (s : Mount)
    → is_disconnect_error e ≡ true
    → (t : Mount) × Steps s t × (shared t ≡ note_error e (shared s))
unfolding note_error report_disconnect is_disconnect_error
Steps-note_error e s h =
    let t = keep_message (codes "lost connection to server: " ++ e.message) s in
    (
      record t { storing = s.storing; stop = true },
      next (next here (request_fails e h)) (stores s.storing refl),
      ground arith,
    )

pub Steps-trans : {s t u : Mount} → Steps s t → Steps t u → Steps s u
Steps-trans r here = r
Steps-trans r (next q h) = next (Steps-trans r q) h
