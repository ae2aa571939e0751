-- ===== src/Channel/Transmit/Keeps.antt =====
-- What the sending operations of crates/ssh3-core/src/channel.rs change of a channel.
use ssh.Base.{ℕ, Bytes, Option, none, some, ◌≡◌, refl, ◌∙◌}
use ssh.Io.{Result, ok, err, resume, Exec, IoError, pure, fail, ◌>>=◌}
use ssh.Io.Sink.{Sink, write_all}
use ssh.Message.{Message}
use ssh.Message.Encode.{to_vec}
use ssh.Channel.State.{Stop, Channel}
use ssh.Channel.Error.{ChannelError}
use ssh.Channel.Transmit.{
  Outcome, on_send, or_panic, write_header, maybe_send_header, send_message, confirm_channel,
}

record Keeps {A : Type 0} (m : Outcome A) : Type 0 where
  at : (c : Channel) → (m c).1.info ≡ c.info

Keeps-bind :
    {A B : Type 0} {m : Outcome A} (f : A → Outcome B)
    → Keeps m
    → ((a : A) → Keeps (f a))
    → Keeps (m >>= f)
unfolding ◌>>=◌
Keeps-bind {A} {B} {m} f k h = record { at = λ c. go c (m c).0 (m c).1 (k.at c) }
  where
    go :
        (c : Channel) (r : Result (Stop ChannelError) A) (c' : Channel)
        → c'.info ≡ c.info
        → (resume r f c').1.info ≡ c.info
    go c (ok a) c' e = (h a).at c' ∙ e
    go c (err x) c' e = e

Keeps-on_send : {A : Type 0} (m : Exec Sink IoError A) → Keeps (on_send m)
Keeps-on_send m = record { at = λ c. refl }

Keeps-or_panic : {A : Type 0} (o : Option A) → Keeps (or_panic o)
unfolding pure fail
Keeps-or_panic none = record { at = λ c. refl }
Keeps-or_panic (some a) = record { at = λ c. refl }

header_keeps : (header : Option Bytes) (c : Channel) → (write_header header c).1.info ≡ c.info
unfolding pure
header_keeps none c = refl
header_keeps (some header) c = refl

Keeps-maybe_send_header : Keeps maybe_send_header
unfolding maybe_send_header
Keeps-maybe_send_header = record { at = λ c. header_keeps c.header (record c { header = none }) }

Keeps-send_message : (m : Message) → Keeps (send_message m)
unfolding send_message
Keeps-send_message m = Keeps-bind _ Keeps-maybe_send_header (λ sent.
    Keeps-bind _ (Keeps-or_panic (to_vec m)) (λ encoded. Keeps-on_send (write_all encoded)))

-- `confirm_channel` changes nothing of a channel's identity, types and sizes, whether it fails or not.
pub confirm_channel-info : (n : ℕ) (c : Channel) → (confirm_channel n c).1.info ≡ c.info
unfolding confirm_channel
confirm_channel-info n c =
    (Keeps-bind _ (Keeps-send_message _) (λ sent. record { at = λ c'. refl })).at c
