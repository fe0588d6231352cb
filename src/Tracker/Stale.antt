-- ===== src/Tracker/Stale.antt =====
-- The bytes of a second answer.
use mathlib.Core.Option
use bittorrent_application_l.Base.{
  ℕ, ◌≡◌, refl, sym, ap, ◌∙◌, Option, none, some, [], ◌∷◌, ◌++◌, append-nil, ◌>>=◌, pos, ℤ, not,
  ◌||◌,
}
use bittorrent_application_l.Bencode.{Text, Bendata, Fields, get_encode}
use bittorrent_application_l.Bencode.Decode.{bendecode_from_file}
use bittorrent_application_l.Bencode.Encoded.{IsEncoded, Starts, IsEncoded-Starts}
use bittorrent_application_l.Bencode.RoundTrip.{bendecode_from_file-IsEncoded}
use bittorrent_application_l.Tracker.{Tracker}
use bittorrent_application_l.Tracker.Response.{
  read_response, parsed_dict, read_fields, number_or, text_or, contains, interval_key,
  min_interval_key, tracker_id_key, failure_reason,
}
use bittorrent_application_l.Bencode.Find.{find_field}

-- A tracker that holds these bytes of answers.
abbrev pub holding : Tracker → Text → Tracker
holding t text = record t { response = text }

-- What reading changes, whatever bytes are held.
read_response_cons :
    (t : Tracker) (c : ℕ) (s : Text)
    → read_response (holding t (c ∷ s))
      ≡ (parsed_dict (bendecode_from_file (c ∷ s)) >>= λ fs. read_fields fs (holding t (c ∷ s)))
unfolding read_response
read_response_cons t c s = refl

read_fields-holding :
    (fs : Fields) (t : Tracker) (x y : Text)
    → read_fields fs (holding t x) ≡ Option.map (λ u. holding u x) (read_fields fs (holding t y))
unfolding read_fields
read_fields-holding fs t x y =
    by_cases (number_or t.interval (find_field interval_key fs))
      (number_or (pos 0) (find_field min_interval_key fs))
      (text_or t.tracker_id (find_field tracker_id_key fs))
  where
    given : Text → ℤ → ℤ → Text → Tracker
    given z n least id = record t {
      response = z;
      update_state = not (contains (find_field failure_reason fs)) || t.update_state;
      interval = n;
      min_interval = least;
      tracker_id = id;
    }

    by_cases :
        (a b : Option ℤ) (c : Option Text)
        → (a >>= λ n. b >>= λ least. c >>= λ id. some (given x n least id))
          ≡ Option.map
              (λ u. holding u x)
              (a >>= λ n. b >>= λ least. c >>= λ id. some (given y n least id))
    by_cases none b c = refl
    by_cases (some n) none c = refl
    by_cases (some n) (some least) none = refl
    by_cases (some n) (some least) (some id) = refl

parsed-holding :
    (o : Option Fields) (t : Tracker) (x y : Text)
    → (o >>= λ fs. read_fields fs (holding t x))
      ≡ Option.map (λ u. holding u x) (o >>= λ fs. read_fields fs (holding t y))
parsed-holding none t x y = refl
parsed-holding (some fs) t x y = read_fields-holding fs t x y

-- Bytes that the decoder reads alike are answered alike.
read_response-alike :
    (t : Tracker) (c : ℕ) (s r : Text)
    → parsed_dict (bendecode_from_file ((c ∷ s) ++ r)) ≡ parsed_dict (bendecode_from_file (c ∷ s))
    → read_response (holding t ((c ∷ s) ++ r))
      ≡ Option.map (λ u. holding u ((c ∷ s) ++ r)) (read_response (holding t (c ∷ s)))
read_response-alike t c s r e =
    read_response_cons t c (s ++ r)
    ∙ rw e (parsed-holding (parsed_dict (bendecode_from_file (c ∷ s))) t ((c ∷ s) ++ r) (c ∷ s))
    ∙ ap (Option.map (λ u. holding u ((c ∷ s) ++ r))) (sym (read_response_cons t c s))

-- What `response` holds is never cleared: behind one whole encoded value, whatever bytes a later
-- answer has added are not looked at. Reading gives what the first answer alone gave, the bytes held
-- apart.
pub read_response-stale :
    (t : Tracker) (v : Bendata) (rest : Text)
    → IsEncoded v
    → read_response (holding t (get_encode v ++ rest))
      ≡ Option.map
          (λ u. holding u (get_encode v ++ rest))
          (read_response (holding t (get_encode v)))
unfolding parsed_dict
read_response-stale t v rest h = split (get_encode v) (IsEncoded-Starts v [] h) (
    ap parsed_dict (bendecode_from_file-IsEncoded v rest h)
    ∙ ap parsed_dict (sym (bendecode_from_file-IsEncoded v [] h))
    ∙ ap (λ w. parsed_dict (bendecode_from_file w)) (append-nil (get_encode v)))
  where
    split :
        (w : Text)
        → Starts (w ++ [])
        → parsed_dict (bendecode_from_file (w ++ rest)) ≡ parsed_dict (bendecode_from_file w)
        → read_response (holding t (w ++ rest))
          ≡ Option.map (λ u. holding u (w ++ rest)) (read_response (holding t w))
    split [] st e = absurd st
    split (c ∷ s) st e = read_response-alike t c s rest e
