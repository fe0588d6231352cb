-- ===== src/Bencode/Show.antt =====
-- src/Bencoder/Bendata.cpp: operator<<.
use bittorrent_application_l.Base.{ℕ, Option, none, some, [], ◌∷◌, ◌++◌, ◌==◌, if◌then◌else◌}
use bittorrent_application_l.Bencode.{
  Text, Bendata, bendata, num, str, lis, dic, Items, nil, cons, Fields, end, field, ben_num_t,
  ben_str_t, ben_lis_t, ben_dic_t,
}
use bittorrent_application_l.Bencode.Decimal.{to_string}

-- The switch on `_t`, by what each of its cases prints; no case prints nothing. `none` is
-- bad_variant_access.
unfoldable pub show_as : ℕ → Option Text → Option Text → Option Text → Option Text → Option Text
show_as t string number list dictionary =
    if t == ben_str_t
    then string
    else if t == ben_num_t
    then number
    else if t == ben_lis_t
    then list
    else if t == ben_dic_t
    then dictionary
    else some []

unfoldable pub quoted : Text → Text
quoted s = b'"' ∷ (s ++ (b'"' ∷ []))

-- An opening, what stands inside, and a closing.
unfoldable pub enclosed : ℕ → Option Text → ℕ → Option Text
enclosed opening none closing = none
enclosed opening (some s) closing = some (opening ∷ (s ++ (closing ∷ [])))

-- `x << ", " << y`
unfoldable pub comma : Option Text → Option Text → Option Text
comma none y = none
comma (some s) none = none
comma (some s) (some t) = some (s ++ (b',' ∷ (b' ' ∷ t)))

-- `key << " : " << value`
unfoldable pub entry : Text → Option Text → Option Text
entry k none = none
entry k (some s) = some (k ++ (b' ' ∷ (b':' ∷ (b' ' ∷ s))))

unfoldable mutual
  unfolding show_as quoted enclosed comma entry

  -- operator<<
  pub show : Bendata → Option Text
  show (bendata (num z) b t) = show_as t none (some (to_string z)) none none
  show (bendata (str s) b t) = show_as t (some (quoted s)) none none none
  show (bendata (lis xs) b t) = show_as t none none (enclosed b'[' (show_items xs) b']') none
  show (bendata (dic fs) b t) = show_as t none none none (enclosed b'{' (show_fields fs) b'}')

  pub show_items : Items → Option Text
  show_items nil = some []
  show_items (cons v nil) = show v
  show_items (cons v (cons w xs)) = comma (show v) (show_items (cons w xs))

  pub show_fields : Fields → Option Text
  show_fields end = some []
  show_fields (field k v end) = entry k (show v)
  show_fields (field k v (field j w fs)) = comma (entry k (show v)) (show_fields (field j w fs))

-- Something is printed.
abbrev pub IsShown : Option Text → Type 0
IsShown none = ⊥
IsShown (some s) = Unit {0}

pub enclosed-IsShown : (a b : ℕ) (o : Option Text) → IsShown o → IsShown (enclosed a o b)
unfolding enclosed
enclosed-IsShown a b none h = h
enclosed-IsShown a b (some s) h = tt

pub comma-IsShown : (o p : Option Text) → IsShown o → IsShown p → IsShown (comma o p)
unfolding comma
comma-IsShown none p h k = h
comma-IsShown (some s) none h k = k
comma-IsShown (some s) (some t) h k = tt

pub entry-IsShown : (k : Text) (o : Option Text) → IsShown o → IsShown (entry k o)
unfolding entry
entry-IsShown k none h = h
entry-IsShown k (some s) h = tt
