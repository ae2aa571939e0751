-- ===== src/Server/Output/Packets.antt =====
-- What the output of a process becomes on the channel.
use ssh.Base.{
  ℕ, ◌≤◌, Bytes, List, [], ◌∷◌, ◌++◌, none, some, ◌≡◌, refl, sym, All, AreBytes, append_assoc,
  append-nil, All-append, length,
}
use ssh.Io.{IoError, Result, ok, err, pure, fail, ◌>>=◌}
use ssh.Wire.{max_ssh_string_len}
use ssh.Wire.Bounds.{Fits}
use ssh.Channel.State.{Channel}
use ssh.Channel.Transmit.{write_data}
use ssh.Channel.Transmit.Order.{header_bytes, wrote, Writable}
use ssh.Channel.Transmit.Pieces.{concat, IsPiece, packets, overhead, room, write_data-packets}
use ssh.Server.Output.{PumpError, read_failed, Reads, buffer_size, pump_loop, pump_process_output}

-- What the process put out before it ended or a read failed.
abbrev pub output : Reads → Bytes
output [] = []
output (err e ∷ rest) = []
output (ok [] ∷ rest) = []
output (ok (b ∷ bs) ∷ rest) = (b ∷ bs) ++ output rest

-- How the reads end.
abbrev pub ended : Reads → Result PumpError (Unit {0})
ended [] = ok tt
ended (err e ∷ rest) = err (read_failed e)
ended (ok [] ∷ rest) = ok tt
ended (ok (b ∷ bs) ∷ rest) = ended rest

abbrev pub IsRead : Result IoError Bytes → Type 0
IsRead (ok bs) = AreBytes bs
IsRead (err e) = Unit {0}

concat-append : (ps qs : List Bytes) → concat (ps ++ qs) ≡ concat ps ++ concat qs
concat-append [] qs = refl
concat-append (p ∷ ps) qs = rw (concat-append ps qs) (sym (append_assoc p (concat ps) (concat qs)))

packets-append :
    (data_type : ℕ) (ps qs : List Bytes)
    → packets data_type (ps ++ qs) ≡ packets data_type ps ++ packets data_type qs
packets-append data_type [] qs = refl
packets-append data_type (p ∷ ps) qs =
    rw (packets-append data_type ps qs)
      (sym (append_assoc _ (packets data_type ps) (packets data_type qs)))

wrote-nothing : (c : Channel) → c.header ≡ none → c ≡ wrote c []
wrote-nothing c h = rw (append-nil c.send.sent) (rw (← h) refl)

abbrev with_result : Result PumpError (Unit {0}) → Channel → Result PumpError (Unit {0}) × Channel
with_result r c = (r, c)

unchanged :
    (r : Result PumpError (Unit {0})) (c : Channel)
    → c.header ≡ none
    → with_result r c ≡ with_result r (wrote c [])
unchanged r c h = λ i. (r, wrote-nothing c h i)

-- Data is written in pieces behind what went out before.
abbrev pub Pumped : Reads → ℕ → Channel → Type 0
Pumped reads data_type c =
    (pieces : List Bytes) × (pump_loop reads data_type c
      ≡ (ended reads, wrote c (packets data_type pieces)))
    × (concat pieces ≡ output reads)
    × All (IsPiece (room c data_type)) pieces

no_header :
    (bs : Bytes) (c : Channel)
    → c.header ≡ none
    → wrote c (header_bytes c.header ++ bs) ≡ wrote c bs
no_header bs c h = rw h refl

-- One read more: its data goes out before the rest.
data_first :
    (b : ℕ) (bs : Bytes) (rest : Reads) (data_type : ℕ) (c : Channel) (ps : List Bytes) (k : ℕ)
    → c.header ≡ none
    → write_data (b ∷ bs) data_type c
      ≡ (ok k, wrote c (header_bytes c.header ++ packets data_type ps))
    → concat ps ≡ b ∷ bs
    → All (IsPiece (room c data_type)) ps
    → Pumped rest data_type (wrote c (packets data_type ps))
    → Pumped (ok (b ∷ bs) ∷ rest) data_type c
unfolding pump_loop ◌>>=◌
data_first b bs rest data_type c ps k h sent same pieces (qs, sent', same', pieces') = (
  ps ++ qs,
  rw sent (
      rw (no_header (packets data_type ps) c h) (
        rw sent' (
          rw (packets-append data_type ps qs)
            (rw (append_assoc c.send.sent (packets data_type ps) (packets data_type qs)) refl)))),
  rw (concat-append ps qs) (rw same (rw same' refl)),
  All-append (IsPiece (room c data_type)) ps qs pieces pieces',
)

pump_loop-packets :
    (reads : Reads) (data_type : ℕ) (c : Channel)
    → All IsRead reads
    → Fits data_type
    → Writable c
    → c.header ≡ none
    → overhead data_type ≤ c.info.max_packet_size
    → c.info.max_packet_size ≤ max_ssh_string_len
    → Pumped reads data_type c
unfolding pump_loop pure fail ◌>>=◌
pump_loop-packets [] data_type c ha ht w h hl hu = ([], unchanged (ok tt) c h, refl, tt)
pump_loop-packets (err e ∷ rest) data_type c ha ht w h hl hu =
    ([], unchanged (err (read_failed e)) c h, refl, tt)
pump_loop-packets (ok [] ∷ rest) data_type c ha ht w h hl hu = ([], unchanged (ok tt) c h, refl, tt)
pump_loop-packets (ok (b ∷ bs) ∷ rest) data_type c ha ht w h hl hu =
    let (ps, sent, same, pieces) = write_data-packets (b ∷ bs) data_type c ha.0 ht w hl hu in
    data_first b bs rest data_type c ps (length (packets data_type ps)) h sent same pieces
      (pump_loop-packets rest data_type (wrote c (packets data_type ps)) ha.1 ht w refl hl hu)

-- On a channel whose header went out, whose writes do not fail and whose packet size is between the
-- length of a message without data and the limit for strings, the pump sends what the reads return
-- until one of them returns no byte or fails, in data messages of the given type, each with a byte
-- and within the room that the packet size leaves; and it ends as these reads do.
pub pump_process_output-packets :
    (reads : ℕ → Reads) (data_type : ℕ) (c : Channel)
    → All IsRead (reads (buffer_size c))
    → Fits data_type
    → Writable c
    → c.header ≡ none
    → overhead data_type ≤ c.info.max_packet_size
    → c.info.max_packet_size ≤ max_ssh_string_len
    → (pieces : List Bytes) × (pump_process_output (some reads) data_type c
        ≡ (ended (reads (buffer_size c)), wrote c (packets data_type pieces)))
      × (concat pieces ≡ output (reads (buffer_size c)))
      × All (IsPiece (room c data_type)) pieces
unfolding pump_process_output
pump_process_output-packets reads data_type c ha ht w h hl hu =
    pump_loop-packets (reads (buffer_size c)) data_type c ha ht w h hl hu
