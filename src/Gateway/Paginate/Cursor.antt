-- ===== src/Gateway/Paginate/Cursor.antt =====
-- gateway/paginate.go: which cursors are accepted.
use fold.Prelude.{
  ℕ, ◌≤◌, ℤ, is_positive, pos_part, true, false, List, Option, some, Str, str_eq_iff, length,
  is_empty, ◌≡◌, arith, inl, inr, Option-cases,
}
use fold.Auth.{Principal}
use fold.Gateway.Paginate.{
  ListCursor, Codec, ok, principal_cursor_key, snapshot_gen, cursor_fits, start_offset, page_or,
  paginate,
}

-- A cursor that was minted for this list and this caller, and points into the list.
pub record Bound (cur : ListCursor) (kind gen pkey : Str) (len : ℕ) : Type 0 where
  pub same_kind : cur.kind ≡ kind
  pub same_list : cur.gen ≡ gen
  pub same_caller : cur.principal ≡ pkey
  pub offset_pos : is_positive cur.offset ≡ true
  pub in_list : pos_part cur.offset ≤ len

cursor_fits-Bound :
    (cur : ListCursor) (kind gen pkey : Str) (len : ℕ)
    → cursor_fits cur kind gen pkey len ≡ true
    → Bound cur kind gen pkey len
unfolding cursor_fits
cursor_fits-Bound cur kind gen pkey len h = record {
  same_kind = ground (arith, str_eq_iff cur.kind kind);
  same_list = ground (arith, str_eq_iff cur.gen gen);
  same_caller = ground (arith, str_eq_iff cur.principal pkey);
  offset_pos = ground arith;
  in_list = ground arith;
}

start_offset-Bound :
    (c : Codec) (raw kind gen pkey : Str) (len : ℕ) {offset : ℕ}
    → is_empty raw ≡ false
    → start_offset c raw kind gen pkey len ≡ some offset
    → (cur : ListCursor) × (c.decode raw ≡ some cur) × Bound cur kind gen pkey len
unfolding start_offset
start_offset-Bound c raw kind gen pkey len e h = elim (Option-cases (c.decode raw)) [
  | inl bad ↦ absurd (ground arith)
  | inr (cur, good) ↦ (cur, good, cursor_fits-Bound cur kind gen pkey len (ground arith))
]

-- A page is given for a cursor only if the cursor was minted for the same kind of list, the same
-- list of names and the same caller, and its offset is positive and inside the list; whatever else a
-- client sends is answered with an error.
pub paginate-Bound :
    {T : Type 0} (c : Codec) (items : List T) (name : T → Str) (kind raw : Str) (size : ℤ)
    (principal : Option Principal) {page : List T × Str}
    → is_empty raw ≡ false
    → paginate c items name kind raw size principal ≡ ok page
    → (cur : ListCursor) × (c.decode raw ≡ some cur)
      × Bound cur kind
          (snapshot_gen c kind items name)
          (principal_cursor_key c principal)
          (length items)
unfolding paginate
paginate-Bound c items name kind raw size principal e h =
    let gen = snapshot_gen c kind items name in
    let pkey = principal_cursor_key c principal in
    elim (Option-cases (start_offset c raw kind gen pkey (length items))) [
      | inl bad ↦ absurd (unfold page_or in ground arith)
      | inr (offset, good) ↦ start_offset-Bound c raw kind gen pkey (length items) e good
    ]
