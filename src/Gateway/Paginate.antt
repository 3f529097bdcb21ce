-- ===== src/Gateway/Paginate.antt =====
-- gateway/paginate.go: pages of the merged, filtered list, with cursors that are offsets into it.
-- SHA-256 in hex and the base64 of a cursor's JSON are parameters, with the laws that the code
-- relies on: a cursor that was encoded decodes to itself, and its text is never empty.
pub mod Walk
pub mod Cursor
use fold.Prelude.{
  ℕ, zero, suc, ◌+◌, ◌-◌, min, ℤ, pos, is_positive, pos_part, Bool, true, false, not, ◌&&◌, ◌||◌,
  List, [], ◌∷◌, ◌++◌, Option, none, some, Str, str_eq, length, take, drop, is_empty, ltb, leb, ◌≡◌,
  ◌≢◌, if◌then◌else◌,
}
use fold.Auth.{Principal}

pub record ListCursor : Type 0 where
  pub kind : Str
  pub offset : ℤ
  pub gen : Str
  pub principal : Str

-- `encodeCursor`, `decodeCursor`, and the first six bytes of a SHA-256 sum in hex.
pub record Codec : Type 0 where
  pub encode : ListCursor → Str
  pub decode : Str → Option ListCursor
  pub short_sum : Str → Str

pub record IsCodec (c : Codec) : Type 0 where
  pub decode-encode : (cur : ListCursor) → c.decode (c.encode cur) ≡ some cur
  pub encode-ne : (cur : ListCursor) → is_empty (c.encode cur) ≡ false

pub data Result {ℓ} (A : Type ℓ) : Type ℓ where
  ok : A → Result A
  bad_cursor : Result A

-- The bytes that identify the caller; anonymous callers share one bucket.
unfoldable pub caller_id : Option Principal → Str
caller_id none = []
caller_id (some p) = p.issuer ++ 0 ∷ p.subject

unfoldable pub principal_cursor_key : Codec → Option Principal → Str
unfolding caller_id
principal_cursor_key c p = c.short_sum (caller_id p)

module _ {ℓ} {T : Type ℓ} where
  -- The stream that is hashed: the kind, then a NUL and the name for each item.
  unfoldable pub snapshot_bytes : (T → Str) → List T → Str
  snapshot_bytes name [] = []
  snapshot_bytes name (it ∷ items) = 0 ∷ (name it ++ snapshot_bytes name items)

  unfoldable pub snapshot_gen : Codec → Str → List T → (T → Str) → Str
  unfolding snapshot_bytes
  snapshot_gen c kind items name = c.short_sum (kind ++ snapshot_bytes name items)

  -- `items[offset:end]`.
  abbrev pub slice : ℕ → ℕ → List T → List T
  slice offset stop items = take (stop - offset) (drop offset items)

-- The tests on a cursor that a client sent.
unfoldable pub cursor_fits : ListCursor → Str → Str → Str → ℕ → Bool
cursor_fits cur kind gen pkey len =
    str_eq cur.kind kind
    && str_eq cur.gen gen
    && str_eq cur.principal pkey
    && (is_positive cur.offset && leb (pos_part cur.offset) len)

unfoldable pub start_offset : Codec → Str → Str → Str → Str → ℕ → Option ℕ
unfolding cursor_fits
start_offset c raw kind gen pkey len = if is_empty raw then some 0 else elim (c.decode raw) [
  | none ↦ none
  | some cur ↦ if cursor_fits cur kind gen pkey len then some (pos_part cur.offset) else none
]

module _ {ℓ} {T : Type ℓ} where
  -- The page from an offset, and the cursor of the next one, empty if there is none.
  unfoldable pub page_at : Codec → List T → Str → Str → Str → ℕ → ℕ → List T × Str
  page_at c items kind gen pkey size offset =
      let stop = min (offset + size) (length items) in
      (
        slice offset stop items,
        if ltb stop (length items)
            then c.encode (record { kind = kind; offset = pos stop; gen = gen; principal = pkey })
            else [],
      )

  unfoldable pub page_or : Codec → List T → Str → Str → Str → ℕ → Option ℕ → Result (List T × Str)
  unfolding page_at
  page_or c items kind gen pkey size none = bad_cursor
  page_or c items kind gen pkey size (some offset) = ok (page_at c items kind gen pkey size offset)

  unfoldable pub paginate :
      Codec → List T → (T → Str) → Str → Str → ℤ → Option Principal → Result (List T × Str)
  unfolding start_offset page_or
  paginate c items name kind raw size principal =
      let gen = snapshot_gen c kind items name in
      let pkey = principal_cursor_key c principal in
      let paged =
        page_or c items kind gen pkey (pos_part size)
          (start_offset c raw kind gen pkey (length items)) in
      if not (is_positive size)
      then if not (is_empty raw) then bad_cursor else ok (items, [])
      else if is_empty raw && leb (length items) (pos_part size)
      then ok (items, [])
      else paged
