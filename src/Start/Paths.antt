-- ===== src/Start/Paths.antt =====
-- `filepath.Clean` and `filepath.Dir` on paths that start with a slash.
use mathlib.Core.List.{append_assoc, reverse-cons}
use ingress_bfe.Base.{
  suc, length, ◌==◌, Text, text, text_eq, is_empty, last_index_byte, join, split_byte, take, Bool,
  true, false, ◌&&◌, ◌||◌, not, List, [], ◌∷◌, ◌++◌, reverse, none, some, All, Bool-cases, ◌≡◌,
  refl, sym, ◌∙◌, ap, arith, inl, inr, clean_part, clean_parts, go_up, print_parts, is_rooted,
  clean, dir, dot_dot, up_to,
}

abbrev pub slash : Text
slash = text "/"

-- The elements that `clean_parts` keeps, the last of them first.
unfoldable pub push_parts : List Text → List Text → List Text
push_parts [] kept = kept
push_parts (part ∷ parts) kept = push_parts parts (clean_part true part kept)

push_parts-append :
    (xs ys kept : List Text) → push_parts (xs ++ ys) kept ≡ push_parts ys (push_parts xs kept)
unfolding push_parts
push_parts-append [] ys kept = refl
push_parts-append (x ∷ xs) ys kept = push_parts-append xs ys _

clean_parts-push_parts :
    (parts kept : List Text) → clean_parts true parts kept ≡ reverse (push_parts parts kept)
unfolding push_parts clean_parts
clean_parts-push_parts [] kept = refl
clean_parts-push_parts (part ∷ parts) kept = clean_parts-push_parts parts _

-- The elements of a path that starts with a slash, the last of them first.
unfoldable pub stack_of : Text → List Text
stack_of path = push_parts (split_byte path b'/') []

-- An element without a slash.
unfoldable pub no_slash : Text → Bool
no_slash [] = true
no_slash (c ∷ s) = not (c == b'/') && no_slash s

-- An element that `Clean` keeps.
abbrev pub Normal : Text → Type 0
Normal part =
    (no_slash part ≡ true)
    × (is_empty part ≡ false)
    × (text_eq part (text ".") ≡ false)
    × (text_eq part dot_dot ≡ false)

split_byte-no_slash : (s : Text) → All (λ part. no_slash part ≡ true) (split_byte s b'/')
unfolding split_byte no_slash
split_byte-no_slash [] = (refl, tt)
split_byte-no_slash (c ∷ s) = ground (arith, split_byte-no_slash s)

split_byte_none : (s : Text) → no_slash s ≡ true → split_byte s b'/' ≡ s ∷ []
unfolding split_byte no_slash
split_byte_none [] h = refl
split_byte_none (c ∷ s) h = ground (arith, split_byte_none s)

split_byte-cons :
    (s : Text) → (part : Text) × (parts : List Text) × (split_byte s b'/' ≡ part ∷ parts)
unfolding split_byte
split_byte-cons [] = ([], [], refl)
split_byte-cons (c ∷ s) =
    let (part, parts, e) = split_byte-cons s in
    elim (Bool-cases (c == b'/')) [
      | inl f ↦ ([], part ∷ parts, ground (arith, e, f))
      | inr f ↦ (c ∷ part, parts, ground (arith, e, f))
    ]

-- A slash between two texts splits them.
pub split_byte-append :
    (s t : Text) → split_byte (s ++ b'/' ∷ t) b'/' ≡ split_byte s b'/' ++ split_byte t b'/'
unfolding split_byte
split_byte-append [] t = ground arith
split_byte-append (c ∷ s) t =
    let (part, parts, e) = split_byte-cons s in ground (arith, e, split_byte-append s t)

pub stack_of-append :
    (s t : Text) → stack_of (s ++ b'/' ∷ t) ≡ push_parts (split_byte t b'/') (stack_of s)
unfolding stack_of
stack_of-append s t =
    rw (split_byte-append s t) (push_parts-append (split_byte s b'/') (split_byte t b'/') [])

-- The path with given elements, the last of them first, each behind a slash.
abbrev pub path_of : List Text → Text
path_of [] = []
path_of (part ∷ kept) = path_of kept ++ b'/' ∷ part

-- `..` goes one element up.
abbrev pub rest_of : List Text → List Text
rest_of [] = []
rest_of (part ∷ kept) = kept

pub go_up-rest_of : (kept : List Text) → All Normal kept → go_up true kept ≡ rest_of kept
go_up-rest_of [] h = refl
go_up-rest_of (part ∷ kept) h = ground arith

pub All-rest_of : (kept : List Text) → All Normal kept → All Normal (rest_of kept)
All-rest_of [] h = tt
All-rest_of (part ∷ kept) h = h.1

All-clean_part :
    (part : Text) (kept : List Text)
    → no_slash part ≡ true
    → All Normal kept
    → All Normal (clean_part true part kept)
All-clean_part part kept n h = elim (Bool-cases (is_empty part || text_eq part (text "."))) [
  | inl e ↦ rw e h
  | inr e ↦ elim (Bool-cases (text_eq part dot_dot)) [
    | inl f ↦ rw (e, f, go_up-rest_of kept h) (All-rest_of kept h)
    | inr f ↦ rw (e, f) ((n, ground arith, ground arith, f), h)
  ]
]

All-push_parts :
    (parts kept : List Text)
    → All (λ part. no_slash part ≡ true) parts
    → All Normal kept
    → All Normal (push_parts parts kept)
unfolding push_parts
All-push_parts [] kept n h = h
All-push_parts (part ∷ parts) kept n h = All-push_parts parts _ n.1 (All-clean_part part kept n.0 h)

stack_of-Normal : (path : Text) → All Normal (stack_of path)
unfolding stack_of
stack_of-Normal path = All-push_parts (split_byte path b'/') [] (split_byte-no_slash path) tt

-- Clean elements are read back.
stack_of-path_of : (kept : List Text) → All Normal kept → stack_of (path_of kept) ≡ kept
unfolding stack_of push_parts split_byte
stack_of-path_of [] h = refl
stack_of-path_of (part ∷ kept) h =
    stack_of-append (path_of kept) part
    ∙ rw (stack_of-path_of kept h.1, split_byte_none part h.0.0) (ground (arith, h.0))

join-snoc :
    (x : Text) (xs : List Text) (part : Text)
    → join ((x ∷ xs) ++ part ∷ []) slash ≡ join (x ∷ xs) slash ++ b'/' ∷ part
unfolding join text
join-snoc x [] part = append_assoc x slash part
join-snoc x (y ∷ xs) part =
    ap (λ t. (x ++ slash) ++ t) (join-snoc y xs part)
    ∙ sym (append_assoc (x ++ slash) (join (y ∷ xs) slash) (b'/' ∷ part))

snoc-cons :
    (xs : List Text) (last : Text) → (y : Text) × (ys : List Text) × (xs ++ last ∷ [] ≡ y ∷ ys)
snoc-cons [] last = (last, [], refl)
snoc-cons (x ∷ xs) last = (x, xs ++ last ∷ [], refl)

abbrev pub printed : List Text → Text
printed kept = print_parts true (reverse kept)

printed-path_of : (part : Text) (kept : List Text) → printed (part ∷ kept) ≡ path_of (part ∷ kept)
unfolding text join
printed-path_of part [] = refl
printed-path_of part (last ∷ kept) =
    let e = reverse-cons last kept in
    let (y, ys, f) = snoc-cons (reverse kept) last in
    ap (print_parts true) (reverse-cons part (last ∷ kept))
    ∙ ap (λ l. b'/' ∷ join (l ++ part ∷ []) slash) (e ∙ f)
    ∙ ap (λ t. b'/' ∷ t) (join-snoc y ys part)
    ∙ ap (λ l. (b'/' ∷ join l slash) ++ b'/' ∷ part) (sym (e ∙ f))
    ∙ ap (λ t. t ++ b'/' ∷ part) (printed-path_of last kept)

last_index_byte-none : (s : Text) → no_slash s ≡ true → last_index_byte s b'/' ≡ none
unfolding last_index_byte no_slash
last_index_byte-none [] h = refl
last_index_byte-none (c ∷ s) h = ground (arith, last_index_byte-none s)

last_index_byte-append :
    (s t : Text) → no_slash t ≡ true → last_index_byte (s ++ b'/' ∷ t) b'/' ≡ some (length s)
unfolding last_index_byte
last_index_byte-append [] t h = ground (arith, last_index_byte-none t h)
last_index_byte-append (c ∷ s) t h = ground (arith, last_index_byte-append s t h)

take-append : (s t : Text) → take (suc (length s)) (s ++ b'/' ∷ t) ≡ s ++ b'/' ∷ []
take-append [] t = ground arith
take-append (c ∷ s) t = ap (λ l. c ∷ l) (take-append s t)

-- The text up to its last slash.
up_to-append :
    (s t : Text)
    → no_slash t ≡ true
    → up_to (last_index_byte (s ++ b'/' ∷ t) b'/') (s ++ b'/' ∷ t) ≡ s ++ b'/' ∷ []
up_to-append s t h = rw (last_index_byte-append s t h) (take-append s t)

pub clean-stack_of : (path : Text) → is_rooted path ≡ true → clean path ≡ printed (stack_of path)
unfolding clean stack_of
clean-stack_of path h =
    rw h (ap (print_parts true) (clean_parts-push_parts (split_byte path b'/') []))

-- A slash at the end changes nothing.
pub stack_of-slash : (s : Text) → stack_of (s ++ slash) ≡ stack_of s
unfolding text split_byte push_parts
stack_of-slash s = stack_of-append s []

pub stack_of-printed : (kept : List Text) → All Normal kept → stack_of (printed kept) ≡ kept
unfolding stack_of push_parts split_byte text join
stack_of-printed [] h = refl
stack_of-printed (part ∷ kept) h =
    ap stack_of (printed-path_of part kept) ∙ stack_of-path_of (part ∷ kept) h

is_rooted-path_of : (kept : List Text) (t : Text) → is_rooted (path_of kept ++ b'/' ∷ t) ≡ true
is_rooted-path_of [] t = ground arith
is_rooted-path_of (part ∷ kept) t =
    ap is_rooted (append_assoc (path_of kept) (b'/' ∷ part) (b'/' ∷ t))
    ∙ is_rooted-path_of kept (part ++ b'/' ∷ t)

-- `filepath.Dir` drops the last element of a clean path.
pub dir-printed : (kept : List Text) → All Normal kept → dir (printed kept) ≡ printed (rest_of kept)
unfolding dir clean_parts split_byte text join last_index_byte
dir-printed [] h = refl
dir-printed (part ∷ kept) h =
    ap dir (printed-path_of part kept)
    ∙ ap clean (up_to-append (path_of kept) part h.0.0)
    ∙ clean-stack_of (path_of kept ++ slash) (is_rooted-path_of kept [])
    ∙ ap printed (stack_of-slash (path_of kept) ∙ stack_of-path_of kept h.1)

is_rooted-up_to :
    (path : Text)
    → is_rooted path ≡ true
    → is_rooted (up_to (last_index_byte path b'/') path) ≡ true
unfolding last_index_byte
is_rooted-up_to [] h = ground arith
is_rooted-up_to (c ∷ s) h = ground arith

-- The directory of a path that starts with a slash is such a path, and clean.
pub dir_rooted :
    (path : Text)
    → is_rooted path ≡ true
    → (kept : List Text) × All Normal kept × (dir path ≡ printed kept)
unfolding dir
dir_rooted path h =
    let up = up_to (last_index_byte path b'/') path in
    (stack_of up, stack_of-Normal up, clean-stack_of up (is_rooted-up_to path h))
