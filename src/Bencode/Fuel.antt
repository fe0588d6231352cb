-- ===== src/Bencode/Fuel.antt =====
-- The decoders end within the fuel that bendecode_from_file gives them.
use bittorrent_application_l.Base.{ℕ, zero, suc, ◌+◌, ◌*◌, ◌≤◌, ◌≡◌, [], ◌∷◌, arith, length}
use bittorrent_application_l.Bencode.{Text, Items, nil, Fields, end}
use bittorrent_application_l.Bencode.Stream.{
  Stream, skip_spaces, peek_skipws, read_delimeter, length-skip_spaces,
}
use bittorrent_application_l.Bencode.Decode.{
  get_bendata_from_stream, bendecode_list, list_loop, bendecode_dictionary, dict_loop,
  bendecode_from_file,
}
use bittorrent_application_l.Bencode.Progress.{
  Ends, Ends-mono, list_round-Ends, dict_round-Ends, dispatch-Ends,
}

mutual
  unfolding get_bendata_from_stream peek_skipws read_delimeter

  get_bendata-Ends :
      (f : ℕ) (s : Stream) → 3 * length s + 3 ≤ f → Ends (length s) (get_bendata_from_stream f s)
  get_bendata-Ends zero s h = absurd (omega arith)
  get_bendata-Ends (suc f) s h =
      let le = length-skip_spaces s in
      Ends-mono (length (skip_spaces s)) (length s) _ le (
        dispatch-Ends (bendecode_dictionary f) (bendecode_list f) (skip_spaces s)
          (λ c r e. dictionary-Ends f (skip_spaces s) c r e (omega arith))
          (λ c r e. list-Ends f (skip_spaces s) c r e (omega arith)))

  list-Ends :
      (f : ℕ) (s : Stream) (c : ℕ) (r : Stream)
      → s ≡ c ∷ r
      → 3 * length s + 2 ≤ f
      → Ends (length s) (bendecode_list f s)
  list-Ends zero s c r e h = absurd (omega arith)
  list-Ends (suc f) [] c r e h = cc
  list-Ends (suc f) (d ∷ s) c r e h =
      Ends-mono (length s) (suc (length s)) (list_loop f s nil (d ∷ [])) (omega arith)
        (list_loop-Ends f s nil (d ∷ []) (omega arith))

  list_loop-Ends :
      (f : ℕ) (s : Stream) (items : Items) (text : Text)
      → 3 * length s + 4 ≤ f
      → Ends (length s) (list_loop f s items text)
  list_loop-Ends zero s items text h = absurd (omega arith)
  list_loop-Ends (suc f) s items text h =
      let le = length-skip_spaces s in
      Ends-mono (length (skip_spaces s)) (length s) _ le (
        list_round-Ends (get_bendata_from_stream f) (list_loop f) items text (skip_spaces s)
          (get_bendata-Ends f (skip_spaces s) (omega arith))
          (λ r xs t lt. list_loop-Ends f r xs t (omega arith)))

  dictionary-Ends :
      (f : ℕ) (s : Stream) (c : ℕ) (r : Stream)
      → s ≡ c ∷ r
      → 3 * length s + 2 ≤ f
      → Ends (length s) (bendecode_dictionary f s)
  dictionary-Ends zero s c r e h = absurd (omega arith)
  dictionary-Ends (suc f) [] c r e h = cc
  dictionary-Ends (suc f) (d ∷ s) c r e h =
      Ends-mono (length s) (suc (length s)) (dict_loop f s end (d ∷ [])) (omega arith)
        (dict_loop-Ends f s end (d ∷ []) (omega arith))

  dict_loop-Ends :
      (f : ℕ) (s : Stream) (fs : Fields) (text : Text)
      → 3 * length s + 4 ≤ f
      → Ends (length s) (dict_loop f s fs text)
  dict_loop-Ends zero s fs text h = absurd (omega arith)
  dict_loop-Ends (suc f) s fs text h =
      let le = length-skip_spaces s in
      Ends-mono (length (skip_spaces s)) (length s) _ le (
        dict_round-Ends (get_bendata_from_stream f) (dict_loop f) fs text (skip_spaces s)
          (λ r lt. get_bendata-Ends f r (omega arith))
          (λ r gs t lt. dict_loop-Ends f r gs t (omega arith)))

-- Decoding a file never runs out of the model's fuel, so it gives a value or throws, on every input,
-- and a value leaves fewer bytes than the file had.
pub bendecode_from_file-Ends : (s : Stream) → Ends (length s) (bendecode_from_file s)
unfolding bendecode_from_file
bendecode_from_file-Ends s = get_bendata-Ends (3 * length s + 3) s (omega arith)
