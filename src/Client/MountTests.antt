-- ===== src/Client/MountTests.antt =====
-- Steps of the threads of a mount, and the theorems at these inputs.
use netfilum.Prelude.{◌≡◌, refl, true, none}
use netfilum.Prelude.Texts.{Text, codes}
use netfilum.Prelude.Results.{ok, err}
use netfilum.Protocol.Errors.{IoError, ErrorKind}
use netfilum.Client.MountState.Watch.{HasLeft, IsLeaving, Steps-HasLeft, Steps-returned}
use netfilum.Client.MountState.{is_disconnect_error, server_disconnected}
use netfilum.Client.MountState.Shutdown.{
  Mount, begun, monitor_ends, monitor_reports, Steps, here, next, keep_message, ended_text,
  finished, IsSound, returned,
}
use netfilum.Client.MountState.Shutdown.{Steps-IsSound}

abbrev addr : Text
addr = codes "127.0.0.1:5001"

-- The monitor's connection has ended, and its thread has reported it.
abbrev reported : Mount
reported = keep_message (ended_text addr (ok tt)) (record begun { monitor = finished })

reported-Steps : Steps begun reported
reported-Steps =
    next (next here (monitor_ends addr (ok tt) refl))
      (monitor_reports (ended_text addr (ok tt)) refl)

Steps-IsSound_example : IsSound reported
Steps-IsSound_example = Steps-IsSound reported-Steps

abbrev reset : IoError
reset = record { kind = ErrorKind.connection_reset; message = codes "reset" }

reset_lem : is_disconnect_error reset ≡ true
unfolding is_disconnect_error
reset_lem = refl

Steps-returned_example :
    (t : Mount) × Steps reported t
    × (t.main ≡ returned (server_disconnected (ended_text addr (ok tt))))
    × (t.pressed ≡ reported.pressed)
Steps-returned_example = Steps-returned (ended_text addr (ok tt)) reported-Steps refl refl

Steps-HasLeft_example :
    (message : Text) × IsLeaving none addr (err reset) message × HasLeft begun message
Steps-HasLeft_example = Steps-HasLeft addr (err reset) here refl refl refl
