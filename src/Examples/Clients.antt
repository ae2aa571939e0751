-- ===== src/Examples/Clients.antt =====
-- What a client makes of a session and of its attempts to connect.
use ssh.Base.{◌++◌, ℕ, arith, ◌≡◌, refl, List, [], ◌∷◌, true, false, none, some, codes}
use ssh.Io.{not_found, ok, err}
use ssh.Message.{Message, channel_request, data_message, ChannelRequest}
use ssh.Client.Requests.{shell}
use ssh.Message.{ExitStatusRequest, ExitSignalRequest}
use ssh.Base.{◌%◌, ◌^◌}
use ssh.Channel.State.{failed}
use ssh.Client.Credentials.{ClientConfig, new_config}
use ssh.Client.Capture.{exit_signal, run_capture_on_client}
use ssh.Client.Capture.Collected.{asked_and_closed, run_capture_on_client-exited}
use ssh.Client.Race.{ConnectError, interrupted, is_fatal, race, race_decided}
use ssh.Channel.Error.{ChannelError}
use ssh.Examples.Channels.{small}
use ssh.Examples.Sessions.{said, asked}

abbrev config : ClientConfig
unfolding new_config
config = new_config (codes "SSH 3.0") (codes "https://localhost")

abbrev exit : ChannelRequest → List Message
exit request =
    channel_request (record { want_reply = false; request = request }) ∷ said (codes "late") ∷ []

abbrev heard_before : List Message
heard_before =
    said (codes "out")
    ∷ asked ChannelRequest.shell
    ∷ data_message (record { data_type = 1; contents = codes "oh" })
    ∷ []

captured_example :
    ((status : ExitStatusRequest)
      → run_capture_on_client
          (ok small)
          config
          none
          shell
          none
          (heard_before ++ exit (ChannelRequest.exit_status status))
          (ChannelError.io not_found)
        ≡ (
          ok (record {
            server_header = none;
            exit_status = status.exit_status % 2 ^ 32;
            stdout = codes "out";
            stderr = codes "oh";
          }),
          some (asked_and_closed shell small),
        ))
    × ((signal : ExitSignalRequest)
        → run_capture_on_client
            (ok small)
            config
            none
            shell
            none
            (heard_before ++ exit (ChannelRequest.exit_signal signal))
            (ChannelError.io not_found)
          ≡ (err (failed (exit_signal signal)), some (asked_and_closed shell small)))
unfolding config
captured_example =
    run_capture_on_client-exited config none shell none small heard_before
      (said (codes "late") ∷ []) (ChannelError.io not_found) false refl refl (omega arith)
      (tt, (tt, (tt, tt)))

race_example :
    ((connection : ℕ) → race (err (interrupted 1) ∷ ok connection ∷ []) none ≡ ok connection)
    × ((e : ConnectError)
        → is_fatal e ≡ true
        → race {Connection = ℕ} (err (interrupted 1) ∷ err e ∷ []) none ≡ err e)
    × (race {Connection = ℕ} (err (interrupted 1) ∷ []) none ≡ err (interrupted 1))
race_example = race_decided (err (interrupted 1) ∷ []) [] none (refl, tt)
