-- ===== src/Tests/Gateway.antt =====
-- Lists, pages and caps on concrete inputs.
use fold.Prelude.{
  zero, suc, ◌≤◌, ℤ, pos, true, false, List, [], ◌∷◌, ◌++◌, Option, none, some, Str, str, str_eq,
  length, take, drop, is_empty, ◌≡◌, refl, ap, arith,
}
use fold.Policy.Engine.{Decision, verdict, allow_all}
use fold.Gateway.Paginate.{ListCursor, Codec, IsCodec, paginate, principal_cursor_key, snapshot_gen}
use fold.Gateway.Paginate.Walk.{collect, collect-items}
use fold.Gateway.Paginate.Cursor.{Bound, paginate-Bound}
use fold.Gateway.Shaping.{new_list_filter}
use fold.Gateway.Shaping.Caps.{filter_all, served_by, served_by-le_cap}
use fold.Tests.Data.{alice}

-- A cursor written as a list: the sign and the size of the offset, then each string with its length.
abbrev put : Str → Str → Str
put s rest = length s ∷ (s ++ rest)

abbrev put_offset : ℤ → Str → Str
put_offset (pos n) rest = 0 ∷ n ∷ rest
put_offset (ℤ.negsuc n) rest = 1 ∷ n ∷ rest

abbrev put_cursor : ListCursor → Str
put_cursor cur = put_offset cur.offset (put cur.kind (put cur.gen (put cur.principal [])))

abbrev head_of : Str → Str
head_of [] = []
head_of (n ∷ rest) = take n rest

abbrev tail_of : Str → Str
tail_of [] = []
tail_of (n ∷ rest) = drop n rest

abbrev strings_of : ℤ → Str → ListCursor
strings_of offset s = record {
  kind = head_of s;
  offset = offset;
  gen = head_of (tail_of s);
  principal = head_of (tail_of (tail_of s));
}

abbrev get_cursor : Str → Option ListCursor
get_cursor [] = none
get_cursor (zero ∷ []) = none
get_cursor (zero ∷ (n ∷ rest)) = some (strings_of (pos n) rest)
get_cursor (suc s ∷ []) = none
get_cursor (suc s ∷ (n ∷ rest)) = some (strings_of (ℤ.negsuc n) rest)

head-put : (s rest : Str) → head_of (put s rest) ≡ s
head-put [] rest = refl
head-put (x ∷ s) rest = ap (◌∷◌ x) (head-put s rest)

tail-put : (s rest : Str) → tail_of (put s rest) ≡ rest
tail-put [] rest = refl
tail-put (x ∷ s) rest = tail-put s rest

get-put :
    (offset : ℤ) (kind gen principal : Str)
    → get_cursor
        (put_cursor (record { kind = kind; offset = offset; gen = gen; principal = principal }))
      ≡ some (record { kind = kind; offset = offset; gen = gen; principal = principal })
get-put (pos n) kind gen principal = rw (head-put, tail-put, head-put, tail-put, head-put) refl
get-put (ℤ.negsuc n) kind gen principal = rw (head-put, tail-put, head-put, tail-put, head-put) refl

put_offset-ne : (offset : ℤ) (rest : Str) → is_empty (put_offset offset rest) ≡ false
put_offset-ne (pos n) rest = refl
put_offset-ne (ℤ.negsuc n) rest = refl

-- A short sum that keeps the first character.
abbrev by_list : Codec
by_list = record { encode = put_cursor; decode = get_cursor; short_sum = λ s. take 1 s }

by_list-IsCodec : IsCodec by_list
by_list-IsCodec = record {
  decode-encode = λ cur. get-put cur.offset cur.kind cur.gen cur.principal;
  encode-ne = λ cur. put_offset-ne cur.offset _;
}

abbrev names : List Str
names = str "a" ∷ str "b" ∷ str "c" ∷ []

collect-items_example :
    collect by_list names (λ s. s) (str "t") (pos 2) (some alice) 4 [] ≡ some names
collect-items_example =
    collect-items by_list names (λ s. s) (str "t") (pos 2) (some alice) by_list-IsCodec refl

-- The cursor of the second page, and that page.
abbrev second : Str
second = put_cursor (record { kind = str "t"; offset = pos 2; gen = str "t"; principal = str "i" })

paginate-Bound_example :
    (cur : ListCursor) × (get_cursor second ≡ some cur) × Bound cur (str "t") (str "t") (str "i") 3
unfolding str_eq snapshot_gen principal_cursor_key paginate
paginate-Bound_example =
    paginate-Bound by_list names (λ s. s) (str "t") second (pos 2) (some alice)
      {page = (str "c" ∷ [], [])} refl refl

-- One rule with a cap of one, and a default that is not capped.
abbrev capped : Decision
capped = record (verdict true) { rule_id = str "r"; max_items = pos 1 }

abbrev mixed : List Decision
mixed = capped ∷ verdict true ∷ capped ∷ verdict false ∷ []

served_by-le_cap_example :
    served_by
      (str "r")
      mixed
      (filter_all mixed (new_list_filter none allow_all (str "tools/list"))).1
    ≤ 1
served_by-le_cap_example =
    served_by-le_cap (str "r") (pos 1) mixed none allow_all (str "tools/list") refl
      ((λ e. refl), ((λ e. ground arith), ((λ e. refl), ((λ e. ground arith), tt))))
