-- ===== src/Tests/Http.antt =====
-- HTTP messages (crates/analyzer/src/http_sessions.rs): runs, and the theorems at concrete inputs.
use newhatch.Common.{ok}
use newhatch.Common.{ℕ, ◌≡◌, refl, arith, true, none, some, List, [], ◌∷◌}
use newhatch.Common.Int.{pos}
use newhatch.Common.Text.{
  trim_text, trim_str, is_utf8, utf8_from, utf8_lead, in_range, strip, reverse, space_at_start,
  space_at_end, is_space, is_space_of_two, is_space_of_three,
}
use newhatch.Http.Chunk.{parse_hex, hex_from, hex_digit}
use newhatch.Http.Framing.{Httparse, complete}
use newhatch.Http.Decoder.{
  Decoder, new_decoder, new_message, request_role, feed, feed_rounds, is_headers,
}
use newhatch.Http.Decoder.Whole.{IsWhole}
use newhatch.Http.Decoder.Exact.{IsFed, feed-IsFed}
use newhatch.Wire.Messages.{c2s, s2c}
use newhatch.Http.Sessions.{new_sessions}
use newhatch.Http.Feed.{close_response}
use newhatch.Http.Bounded.{IsBounded}
use newhatch.Http.Bounded.Calls.{feed_each, close_response-feed_each-IsBounded}
use newhatch.Http.Decoder.Fuel.{feed_rounds-feed}

-- " 1A "
hex_read : trim_text (b' ' ∷ b'1' ∷ b'A' ∷ b' ' ∷ []) ≡ some (b'1' ∷ b'A' ∷ [])
unfolding trim_text trim_str is_utf8 utf8_from utf8_lead in_range strip reverse space_at_start
    space_at_end is_space is_space_of_two is_space_of_three
hex_read = refl

hex_value : parse_hex (b'1' ∷ b'A' ∷ []) ≡ some 26
unfolding parse_hex hex_from hex_digit
hex_value = refl

-- A parser that finds the method "G" and the header "content-length: 2" in every head.
abbrev parser : Httparse
parser = record {
  request = λ bytes. record {
    outcome = complete;
    verb = some (b'G' ∷ []);
    target = none;
    version = some 1;
    headers =
        record {
          name =
              b'C' ∷ b'o' ∷ b'n' ∷ b't' ∷ b'e' ∷ b'n' ∷ b't' ∷ b'-' ∷ b'l' ∷ b'e' ∷ b'n' ∷ b'g'
              ∷ b't' ∷ b'h' ∷ [];
          value = b'2' ∷ [];
        }
        ∷ [];
  };
  response =
      λ bytes. record { outcome = complete; code = some 200; version = some 1; headers = [] };
  one_header = λ bytes. none;
  trailer = λ bytes. true;
}

-- A request with its body of two bytes, and the beginning of the next one.
abbrev pipelined : List ℕ
pipelined = b'G' ∷ 10 ∷ 10 ∷ b'h' ∷ b'i' ∷ b'G' ∷ []

abbrev fresh : Decoder
fresh = new_decoder request_role 100

fresh-IsWhole : IsWhole 100 [] fresh
unfolding new_decoder new_message is_headers
fresh-IsWhole = record {
  role = refl;
  small = omega arith;
  budget = omega arith;
  room = omega arith;
  kept = λ _. refl;
  counted = λ _. refl;
  exact = λ _. refl;
  fits = λ h. absurd cc;
}

feed-IsFed_example :
    IsFed parser (pos 1) none 100 [] pipelined 0 (feed parser fresh pipelined (pos 1) none 100)
feed-IsFed_example = feed-IsFed parser (pos 1) none 100 fresh [] pipelined fresh-IsWhole

feed_rounds-feed_example :
    feed_rounds parser (ok (fresh, 99, none)) 50 (pos 1) none 100 fresh pipelined 0
    ≡ feed parser fresh pipelined (pos 1) none 100
feed_rounds-feed_example =
    feed_rounds-feed parser (pos 1) none 100 (ok (fresh, 99, none)) 50 fresh pipelined (omega arith)

close_response-feed_each-IsBounded_example :
    IsBounded
      (feed_each parser (new_sessions 100) ((s2c, pipelined, pos 1) ∷ (c2s, pipelined, pos 2) ∷ []))
    × IsBounded
        (close_response parser
          (feed_each parser
            (new_sessions 100)
            ((s2c, pipelined, pos 1) ∷ (c2s, pipelined, pos 2) ∷ []))
          true).0
close_response-feed_each-IsBounded_example =
    close_response-feed_each-IsBounded parser 100
      ((s2c, pipelined, pos 1) ∷ (c2s, pipelined, pos 2) ∷ []) true (omega arith)
