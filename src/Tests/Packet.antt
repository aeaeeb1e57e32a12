-- ===== src/Tests/Packet.antt =====
-- Packets (crates/collector/src/packet.rs): runs, and the theorems at concrete inputs.
use newhatch.Common.{ℕ, ◌≡◌, ◌↔◌, refl, arith, true, false, some, none, List, [], ◌∷◌, All}
use newhatch.Common.Int.{pos}
use newhatch.Wire.Messages.{Source, v4, TcpPacket, ClassifiedPacket, c2s, s2c}
use newhatch.Packet.Parse.{
  parse_ip_tcp, parse_network, parse_ipv4, parse_tcp, byte_at, u16_at, u32_at, octets, slice, done,
  nothing,
}
use newhatch.Packet.Parse.Safe.{Sound, parse_ip_tcp-Sound}
use newhatch.Packet.Parse.Layout.{Segment, Ipv4Header, ipv4_frame, parsed, parse_ip_tcp-ipv4_frame}
use newhatch.Packet.Classify.{
  classify, find_source, monitors, IsClass, classify-IsClass, classify-none_iff, classify_reply,
}

-- The packet of the source's own test: 10.0.0.2:51465 to 10.0.0.1:18080, with "GET".
abbrev get_packet : List ℕ
get_packet =
    0x45 ∷ 0 ∷ 0 ∷ 43 ∷ 0 ∷ 0 ∷ 0 ∷ 0 ∷ 0 ∷ 6 ∷ 0 ∷ 0 ∷ 10 ∷ 0 ∷ 0 ∷ 2 ∷ 10 ∷ 0 ∷ 0 ∷ 1 ∷ 201 ∷ 9
    ∷ 70 ∷ 160 ∷ 0 ∷ 0 ∷ 0 ∷ 100 ∷ 0 ∷ 0 ∷ 0 ∷ 0 ∷ 80 ∷ 0x18 ∷ 0 ∷ 0 ∷ 0 ∷ 0 ∷ 0 ∷ 0 ∷ b'G' ∷ b'E'
    ∷ b'T' ∷ []

abbrev get_parsed : TcpPacket
get_parsed = record {
  timestamp_micros = pos 123;
  src = record { ip = v4 (10 ∷ 0 ∷ 0 ∷ 2 ∷ []); port = 51465 };
  dst = record { ip = v4 (10 ∷ 0 ∷ 0 ∷ 1 ∷ []); port = 18080 };
  sequence = 100;
  syn = false;
  fin = false;
  rst = false;
  payload = b'G' ∷ b'E' ∷ b'T' ∷ [];
}

get_packet_parsed : parse_ip_tcp get_packet (pos 123) ≡ done get_parsed
unfolding parse_ip_tcp parse_network parse_ipv4 parse_tcp byte_at u16_at u32_at octets slice
get_packet_parsed = refl

-- A version that is neither 4 nor 6, and a frame that ends in its header.
no_ip_version : parse_ip_tcp (0x55 ∷ []) (pos 0) ≡ nothing
unfolding parse_ip_tcp parse_network
no_ip_version = refl

cut_header : parse_ip_tcp (0x45 ∷ 0 ∷ 0 ∷ []) (pos 0) ≡ nothing
unfolding parse_ip_tcp parse_network parse_ipv4
cut_header = refl

parse_ip_tcp-Sound_example : Sound get_packet (pos 123) (parse_ip_tcp get_packet (pos 123))
parse_ip_tcp-Sound_example = parse_ip_tcp-Sound get_packet (pos 123) (omega arith)

abbrev header : Ipv4Header
header = record {
  service = 0;
  identification = 1;
  fragment = 0x4000;
  ttl = 64;
  checksum = 0;
  src0 = 10;
  src1 = 0;
  src2 = 0;
  src3 = 2;
  dst0 = 10;
  dst1 = 0;
  dst2 = 0;
  dst3 = 1;
  options = 1 ∷ 1 ∷ 1 ∷ 1 ∷ [];
  option_words = 1;
}

abbrev segment : Segment
segment = record {
  src_port = 51465;
  dst_port = 18080;
  sequence = 100;
  acknowledgment = 7;
  flags = 0x18;
  window = 1024;
  checksum = 0;
  urgent = 0;
  options = [];
  option_words = 0;
  payload = b'G' ∷ b'E' ∷ b'T' ∷ [];
}

parse_ip_tcp-ipv4_frame_example :
    parse_ip_tcp (ipv4_frame header segment (0 ∷ 0 ∷ [])) (pos 5)
    ≡ done (parsed header segment (pos 5))
parse_ip_tcp-ipv4_frame_example =
    parse_ip_tcp-ipv4_frame header segment (0 ∷ 0 ∷ []) (pos 5) (omega arith)

abbrev sources : List Source
sources =
    record { id = pos 3; name = "old"; port = 18080; enabled = false }
    ∷ record { id = pos 1; name = "web"; port = 18080; enabled = true }
    ∷ []

abbrev get_classified : ClassifiedPacket
get_classified = record {
  source_id = pos 1;
  direction = c2s;
  flow_key = record { client = get_parsed.src; server = get_parsed.dst };
  packet = get_parsed;
}

get_is_classified : classify get_parsed sources ≡ some get_classified
unfolding classify find_source
get_is_classified = refl

abbrev reply : TcpPacket
reply = record get_parsed { src = get_parsed.dst; dst = get_parsed.src }

classify-IsClass_example : IsClass get_parsed sources get_classified
classify-IsClass_example = classify-IsClass get_parsed sources get_classified get_is_classified

classify-none_iff_example :
    (classify get_parsed [] ≡ none)
    ↔ (All (λ s. monitors 18080 s ≡ false) [] × All (λ s. monitors 51465 s ≡ false) [])
classify-none_iff_example = classify-none_iff get_parsed []

no_client_port : find_source 51465 sources ≡ none
unfolding find_source
no_client_port = refl

classify_reply_example :
    (get_classified.direction ≡ c2s)
    × (get_classified.flow_key ≡ record { client = get_parsed.src; server = get_parsed.dst })
    × (classify reply sources ≡ some (record get_classified { direction = s2c; packet = reply }))
classify_reply_example =
    classify_reply get_parsed reply sources get_classified (refl, refl) no_client_port
      get_is_classified
