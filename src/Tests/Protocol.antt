-- ===== src/Tests/Protocol.antt =====
-- The codec and the sequence numbers, run and instantiated.
use lookauniversalremote.Prelude.{◌≡◌, refl, arith, true, false, [], ◌∷◌, pos, some, word8, word16}
use lookauniversalremote.Protocol.Encoder.{Encoded, encode, frame_bytes, default_encoder}
use lookauniversalremote.Protocol.Encoder.Laws.{written, encode-layout}
use lookauniversalremote.Protocol.Reader.{
  ok, throw, array_buffer, too_short, bad_version, bad_size, unknown_type,
}
use lookauniversalremote.Protocol.Decoder.{decode_packet}
use lookauniversalremote.Protocol.Decoder.RoundTrip.{decode-encode, sent_packet}
use lookauniversalremote.Protocol.Decoder.Range.{IsPlain, decode-encode_plain}
use lookauniversalremote.Protocol.Decoder.Verdict.{Verdict, decode_packet-Verdict}
use lookauniversalremote.Protocol.Sequence.Window.{accepted, tracking, accepted-eq-newer}
use lookauniversalremote.Tests.Samples.{ascii_codec, move_packet}

errors :
    (decode_packet ascii_codec (array_buffer (1 ∷ 2 ∷ [])) ≡ throw (too_short 2))
    × (decode_packet ascii_codec (array_buffer (2 ∷ 8 ∷ 0 ∷ 0 ∷ 0 ∷ [])) ≡ throw (bad_version 2))
    × (decode_packet ascii_codec (array_buffer (1 ∷ 3 ∷ 0 ∷ 0 ∷ 0 ∷ [])) ≡ throw (unknown_type 3))
    × (decode_packet ascii_codec (array_buffer (1 ∷ 8 ∷ 0 ∷ 0 ∷ 0 ∷ [])) ≡ throw (bad_size 13 5))
unfolding decode_packet
errors = (refl, refl, refl, refl)

encode-layout_example :
    encode ascii_codec move_packet default_encoder
    ≡ some (written (1 ∷ 4 ∷ 1 ∷ 255 ∷ 255 ∷ 212 ∷ 254 ∷ 12 ∷ 0 ∷ 255 ∷ 0 ∷ 1 ∷ []) default_encoder)
unfolding encode word8 word16
encode-layout_example = encode-layout ascii_codec move_packet default_encoder (omega arith)

decode-encode_example :
    (e : Encoded) × (encode ascii_codec move_packet default_encoder ≡ some e)
    × (decode_packet ascii_codec (array_buffer (frame_bytes e))
        ≡ ok (sent_packet ascii_codec (pos 65535) (pos 1) move_packet.payload))
decode-encode_example = decode-encode ascii_codec move_packet default_encoder (omega arith)

move_packet-IsPlain : IsPlain move_packet
move_packet-IsPlain = record {
  version_ok = refl;
  type_ok = refl;
  flags_ok = omega arith;
  sequence_ok = omega arith;
  payload_ok = omega arith;
}

decode-encode_plain_example :
    (e : Encoded) × (encode ascii_codec move_packet default_encoder ≡ some e)
    × (decode_packet ascii_codec (array_buffer (frame_bytes e)) ≡ ok move_packet)
decode-encode_plain_example =
    decode-encode_plain ascii_codec move_packet default_encoder (omega arith) move_packet-IsPlain

decode_packet-Verdict_example :
    Verdict
      (1 ∷ 8 ∷ 0 ∷ 0 ∷ 0 ∷ [])
      (decode_packet ascii_codec (array_buffer (1 ∷ 8 ∷ 0 ∷ 0 ∷ 0 ∷ [])))
decode_packet-Verdict_example = decode_packet-Verdict ascii_codec (1 ∷ 8 ∷ 0 ∷ 0 ∷ 0 ∷ [])

accepted-eq-newer_example :
    accepted (tracking 65534) (65535 ∷ 65537 ∷ 65536 ∷ 65537 ∷ 65538 ∷ [])
    ≡ true ∷ true ∷ false ∷ false ∷ true ∷ []
accepted-eq-newer_example =
    accepted-eq-newer 65534 (65535 ∷ 65537 ∷ 65536 ∷ 65537 ∷ 65538 ∷ []) (omega arith)
