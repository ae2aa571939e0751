-- ===== src/Examples/Messages.antt =====
-- Integers, strings, messages and headers of the wire.
use ssh.Base.{Bytes, [], ◌∷◌, ◌≡◌, refl, true, some, codes, length, arith}
use ssh.Io.{Stream, unexpected_eof, ok, err, prepend}
use ssh.Io.Agrees.{map_err}
use ssh.Wire.{
  invalid_length, read_var_int, append_var_int, var_int_len, read_ssh_bytes, append_ssh_bytes,
  ssh_string_len, append_var_int_with_len, io,
}
use ssh.Wire.RoundTrip.{read_var_int-append_var_int, read_ssh_bytes-append_ssh_bytes}
use ssh.Forwarding.{IpAddr, v4, from_ip, octets_of, socket_of}
use ssh.Message.{Message, channel_request, exec, data_message}
use ssh.Message.Encode.{to_vec, encoded_len}
use ssh.Message.Parse.{parse}
use ssh.Message.Layout.{IsMessage}
use ssh.Message.RoundTrip.{parse-to_vec}
use ssh.Message.Prefix.{parse_truncated}
use ssh.Message.Bounds.{parse-IsMessage}
use ssh.Channel.Parse.{parse_message}
use ssh.Channel.Error.{of_wire}
use ssh.Channel.Agrees.{parse_message-parse}
use ssh.Header.{ChannelHeader, encode_header, build_forwarding_additional_bytes}
use ssh.Incoming.Read.{read_incoming_channel}
use ssh.Incoming.Target.{read_incoming_channel-forwarding}

abbrev quiet : Stream
quiet = record { bytes = 7 ∷ []; ending = unexpected_eof }

read_var_int_example :
    (bs : Bytes) × (append_var_int [] 16384 ≡ some bs)
    × (var_int_len 16384 ≡ some (length bs))
    × (read_var_int (prepend bs quiet) ≡ (ok 16384, quiet))
read_var_int_example = read_var_int-append_var_int 16384 quiet (omega arith)

read_ssh_bytes_example :
    (out : Bytes) × (append_ssh_bytes [] (codes "hello") ≡ some out)
    × (ssh_string_len (codes "hello") ≡ some (length out))
    × (read_ssh_bytes (prepend out quiet) ≡ (ok (codes "hello"), quiet))
read_ssh_bytes_example = read_ssh_bytes-append_ssh_bytes (codes "hello") quiet (omega arith)

one_byte : var_int_len 37 ≡ some 1
unfolding var_int_len
one_byte = refl

abbrev run_ls : Message
run_ls =
    channel_request (record { want_reply = true; request = exec (record { command = codes "ls" }) })

abbrev run_ls_bytes : Bytes
run_ls_bytes = 64 ∷ 98 ∷ 4 ∷ 101 ∷ 120 ∷ 101 ∷ 99 ∷ 1 ∷ 2 ∷ 108 ∷ 115 ∷ []

run_ls-to_vec : to_vec run_ls ≡ some run_ls_bytes
unfolding to_vec encoded_len ssh.Message.Encode.encoded_len_channel_request var_int_len
    ssh_string_len ssh.Message.Encode.request_type ssh.Message.Encode.encoded_payload_len
    ssh.Message.Encode.encoded_len_exec ssh.Message.Encode.encode
    ssh.Message.Encode.encode_channel_request append_var_int append_ssh_bytes
    ssh.Message.Encode.encode_payload ssh.Message.Encode.encode_exec ssh.Wire.write_bool
run_ls-to_vec = refl

parse-to_vec_example :
    (bs : Bytes) × (to_vec run_ls ≡ some bs)
    × (encoded_len run_ls ≡ some (length bs))
    × (parse (prepend bs quiet) ≡ (ok run_ls, quiet))
parse-to_vec_example = parse-to_vec run_ls quiet (omega arith)

parse_truncated_example :
    (parse (record { bytes = 64 ∷ 98 ∷ 4 ∷ 101 ∷ []; ending = unexpected_eof })).0
    ≡ err (io unexpected_eof)
parse_truncated_example =
    parse_truncated run_ls (64 ∷ 98 ∷ 4 ∷ 101 ∷ []) (101 ∷ 99 ∷ 1 ∷ 2 ∷ 108 ∷ 115 ∷ []) 120
      unexpected_eof (omega arith) run_ls-to_vec

abbrev run_ls_stream : Stream
run_ls_stream = record { bytes = run_ls_bytes; ending = unexpected_eof }

run_ls-parse : (parse run_ls_stream).0 ≡ ok run_ls
unfolding parse ssh.Io.◌>>=◌ read_var_int ssh.Wire.read_byte ssh.Io.read_exact
    ssh.Message.Parse.parse_kind ssh.Message.Parse.parse_channel_request read_ssh_bytes ssh.Io.lift
    ssh.Wire.checked_ssh_string_length ssh.Wire.read_bool ssh.Message.Parse.parse_request
    ssh.Message.Parse.parse_exec
run_ls-parse = refl

parse-IsMessage_example : IsMessage run_ls
parse-IsMessage_example = parse-IsMessage run_ls_stream run_ls (omega arith) run_ls-parse

parse_message_example :
    parse_message run_ls_stream ≡ (map_err of_wire (parse run_ls_stream).0, (parse run_ls_stream).1)
parse_message_example = parse_message-parse run_ls_stream

abbrev direct_tcp : ChannelHeader
direct_tcp = record {
  conversation_stream_id = 4;
  channel_type = codes "direct-tcp";
  max_packet_size = 30000;
}

abbrev session : ChannelHeader
session = record {
  conversation_stream_id = 4;
  channel_type = codes "session";
  max_packet_size = 30000;
}

abbrev localhost : IpAddr
localhost = v4 (127 ∷ 0 ∷ 0 ∷ 1 ∷ [])

forwarding_example :
    (more bs : Bytes) × (build_forwarding_additional_bytes localhost 8080 ≡ some more)
    × (encode_header direct_tcp (some more) ≡ some bs)
    × (read_incoming_channel 8 (prepend bs quiet) ≡ (
      ok (record {
        stream_id = 8;
        header = direct_tcp;
        forwarding_target = some (socket_of (from_ip localhost) (octets_of localhost) 8080);
      }),
      quiet,
    ))
forwarding_example =
    read_incoming_channel-forwarding 8 direct_tcp localhost 8080 quiet (omega arith) refl
      (omega arith, refl) (omega arith)
