-- ===== src/Bencode/Tests.antt =====
-- Tests of the encoders and decoders, and the theorems at concrete inputs.
use Prim.Native.String.{String}
use Prim.Native.Char.{code}
use bittorrent_application_l.Base.{
  ◌-◌, ◌≡◌, refl, [], ◌∷◌, ◌++◌, arith, replicate, pos, negsuc, some, none,
}
use bittorrent_application_l.Bencode.{
  Text, Bendata, bendata, num, str, lis, dic, nil, cons, end, field, get_encode, text_ltb, assign,
}
use bittorrent_application_l.Bencode.Decimal.{to_string, noexcept_stoi}
use bittorrent_application_l.Bencode.Stream.{peek_skipws, read_delimeter, read_until, read_chars}
use bittorrent_application_l.Bencode.Encode.{encode_int, encode, encode_to_list, encode_to_dict}
use bittorrent_application_l.Bencode.Decode.{
  done, bendecode_string, bendecode_integer, get_bendata_from_stream, bendecode_from_file,
}
use bittorrent_application_l.Bencode.Fuel.{bendecode_from_file-Ends}
use bittorrent_application_l.Bencode.Progress.{Ends}
use bittorrent_application_l.Bencode.Show.{show, IsShown}
use bittorrent_application_l.Bencode.Shape.{IsTagged}
use bittorrent_application_l.Bencode.Printing.{bendecode_from_file-IsTagged}
use bittorrent_application_l.Bencode.RoundTrip.{bendecode_from_file-IsEncoded}
use bittorrent_application_l.Bencode.Short.{last_byte, bendecode_string-short}

abbrev codes : String → Text
codes String.[] = []
codes (String.◌∷◌ c s) = code c ∷ codes s

print_int : encode_int (negsuc 41) ≡ codes "i-42e"
unfolding encode_int to_string
print_int = refl

print_string : encode (codes "spam") ≡ codes "4:spam"
unfolding encode to_string
print_string = refl

-- The pairs are sorted by their keys.
print_dict :
    encode_to_dict (
      record { key = codes "spam"; bencoded_value = codes "i1e" }
      ∷ (record { key = codes "cow"; bencoded_value = codes "3:moo" } ∷ []))
    ≡ codes "d3:cow3:moo4:spami1ee"
unfolding encode_to_dict encode to_string text_ltb
print_dict = refl

-- White space and a sign before a number, and anything behind it.
stoi_prefix : noexcept_stoi (codes " +12ab") ≡ some (pos 12)
unfolding noexcept_stoi
stoi_prefix = refl

stoi_range : noexcept_stoi (codes "2147483648") ≡ none
unfolding noexcept_stoi
stoi_range = refl

-- A negative length is the empty string.
negative_length :
    bendecode_string (codes "-3:abc") ≡ done (bendata (str []) (codes "-3:") b's', codes "abc")
unfolding bendecode_string read_until noexcept_stoi read_chars
negative_length = refl

abbrev cow : Bendata
cow =
    bendata
      (dic (
        field (codes "a") (bendata (num (pos 7)) (codes "i7e") b'i') (
          field (codes "b")
            (bendata (lis (cons (bendata (str (codes "x")) (codes "1:x") b's') nil)) (codes "l1:xe")
              b'l')
            end)))
      (codes "d1:ai7e1:bl1:xee") b'd'

read_cow : bendecode_from_file (codes "d1:ai7e1:bl1:xee") ≡ done (cow, [])
unfolding bendecode_from_file get_bendata_from_stream bendecode_string bendecode_integer peek_skipws
    read_delimeter read_until read_chars noexcept_stoi to_string assign
read_cow = refl

bendecode_from_file-Ends_example : Ends 3 (bendecode_from_file (codes "li7"))
bendecode_from_file-Ends_example = bendecode_from_file-Ends (codes "li7")

bendecode_from_file-IsTagged_example : IsTagged cow × IsShown (show cow)
bendecode_from_file-IsTagged_example =
    bendecode_from_file-IsTagged (codes "d1:ai7e1:bl1:xee") [] cow read_cow

bendecode_from_file-IsEncoded_example :
    bendecode_from_file (get_encode cow ++ codes "rest") ≡ done (cow, codes "rest")
unfolding encode_int encode encode_to_list encode_to_dict to_string text_ltb
bendecode_from_file-IsEncoded_example = bendecode_from_file-IsEncoded cow (codes "rest") (
  (
    omega arith,
    (omega arith, refl, refl),
    (omega arith, ((((omega arith, refl, refl), tt), refl, refl)), tt),
  ),
  (refl, tt),
  refl,
  refl,
)

bendecode_string-short_example :
    bendecode_string (to_string (pos 5) ++ (b':' ∷ codes "ab"))
    ≡ done (
      bendata
          (str (codes "ab" ++ replicate (5 - 2) (last_byte b':' (codes "ab"))))
          (to_string (pos 5)
            ++ (b':' ∷ (codes "ab" ++ replicate (5 - 2) (last_byte b':' (codes "ab")))))
          b's',
      [],
    )
bendecode_string-short_example = bendecode_string-short 5 (codes "ab") (omega arith) (omega arith)
