-- ===== src/Gateway/Paginate/Walk.antt =====
-- gateway/paginate.go: a client that follows the cursors gets the whole list, once.
use fold.Prelude.{
  ℕ, zero, suc, ◌+◌, ◌-◌, ◌≤◌, ◌<◌, min, ℤ, pos, is_positive, pos_part, true, false, List, [], ◌∷◌,
  ◌++◌, Option, none, some, Str, str_eq_refl, length, take, drop, take-append-drop, length-drop,
  is_empty, ltb, ltb→lt, leb, ◌≡◌, refl, sym, ap, ◌∙◌, arith, inl, inr, Bool-cases, if◌then◌else◌,
}
use fold.Auth.{Principal}
use fold.Gateway.Paginate.{
  ListCursor, Codec, IsCodec, Result, ok, bad_cursor, principal_cursor_key, snapshot_gen, slice,
  cursor_fits, start_offset, page_at, page_or, paginate,
}

is_positive-lt : (z : ℤ) → is_positive z ≡ true → 0 < pos_part z
is_positive-lt (pos n) h = ground arith
is_positive-lt (ℤ.negsuc n) h = ground arith

not_ltb : (a b : ℕ) → ltb a b ≡ false → b ≤ a
not_ltb a b h = ground arith

module _ {ℓ} {T : Type ℓ} where
  drop-nil : (n : ℕ) → drop {A = T} n [] ≡ []
  drop-nil zero = refl
  drop-nil (suc n) = refl

  drop-drop : (a b : ℕ) (xs : List T) → drop a (drop b xs) ≡ drop (b + a) xs
  drop-drop a zero xs = ap (λ n. drop n xs) (omega arith)
  drop-drop a (suc b) [] = drop-nil a ∙ sym (drop-nil (suc b + a))
  drop-drop a (suc b) (x ∷ xs) =
      let e : suc (b + a) ≡ suc b + a = omega arith in
      drop-drop a b xs ∙ ap (λ n. drop n (x ∷ xs)) e

  take_all : (n : ℕ) (xs : List T) → length xs ≤ n → take n xs ≡ xs
  take_all zero [] h = refl
  take_all zero (x ∷ xs) h = absurd (omega arith)
  take_all (suc n) [] h = refl
  take_all (suc n) (x ∷ xs) h = ap (◌∷◌ x) (take_all n xs (omega arith))

  abbrev pub prepend : List T → Option (List T) → Option (List T)
  prepend page none = none
  prepend page (some rest) = some (page ++ rest)

  -- Every page but the last is followed by what the next offset starts with.
  slice-append :
      (offset stop : ℕ) (items : List T)
      → offset ≤ stop
      → slice offset stop items ++ drop stop items ≡ drop offset items
  slice-append offset stop items h =
      ap (λ n. slice offset stop items ++ drop n items) (omega arith)
      ∙ ap (λ t. slice offset stop items ++ t) (sym (drop-drop (stop - offset) offset items))
      ∙ take-append-drop (stop - offset) (drop offset items)

module _ {ℓ} {T : Type ℓ} (c : Codec) (items : List T) (name : T → Str) (kind : Str) (size : ℤ)
    (principal : Option Principal) where
  abbrev then_collect : Result (List T × Str) → (Str → Option (List T)) → Option (List T)
  then_collect bad_cursor more = none
  then_collect (ok (page, next)) more =
      if is_empty next then some page else prepend page (more next)

  -- What a client collects that asks for a page and then, by the cursor it was given, for the next.
  unfoldable pub collect : ℕ → Str → Option (List T)
  collect zero raw = none
  collect (suc fuel) raw =
      then_collect (paginate c items name kind raw size principal) (collect fuel)

  abbrev gen : Str
  gen = snapshot_gen c kind items name

  abbrev pkey : Str
  pkey = principal_cursor_key c principal

  abbrev minted : ℕ → ListCursor
  minted offset = record { kind = kind; offset = pos offset; gen = gen; principal = pkey }

  minted_fits :
      (offset : ℕ)
      → 0 < offset
      → offset ≤ length items
      → cursor_fits (minted offset) kind gen pkey (length items) ≡ true
  unfolding cursor_fits
  minted_fits offset h k = ground (arith, str_eq_refl kind, str_eq_refl gen, str_eq_refl pkey)

  module _ (laws : IsCodec c) (positive : is_positive size ≡ true) where
    -- A cursor that was minted for an offset gives the page at that offset.
    paginate-minted :
        (offset : ℕ)
        → 0 < offset
        → offset ≤ length items
        → paginate c items name kind (c.encode (minted offset)) size principal
          ≡ ok (page_at c items kind gen pkey (pos_part size) offset)
    unfolding paginate start_offset page_or
    paginate-minted offset h k =
        rw
          (
            positive,
            laws.encode-ne (minted offset),
            laws.decode-encode (minted offset),
            minted_fits offset h k,
          )
          refl

    page_step :
        (fuel offset : ℕ)
        → offset ≤ length items
        → ((stop : ℕ)
            → offset < stop
            → stop < length items
            → collect fuel (c.encode (minted stop)) ≡ some (drop stop items))
        → then_collect (ok (page_at c items kind gen pkey (pos_part size) offset)) (collect fuel)
          ≡ some (drop offset items)
    unfolding page_at
    page_step fuel offset k ih =
        let stop = min (offset + pos_part size) (length items) in
        let grows : 0 < pos_part size = is_positive-lt size positive in
        elim (Bool-cases (ltb stop (length items))) [
          | inl more ↦
              rw
                (
                  more,
                  laws.encode-ne (minted stop),
                  ih stop (omega (arith, ltb→lt _ _ more)) (ltb→lt _ _ more),
                )
                (ap some (slice-append offset stop items (omega arith)))
          | inr last ↦ rw last (
              ap some (
                take_all (stop - offset) (drop offset items)
                  (omega (arith, length-drop offset items, not_ltb _ _ last))))
        ]

    collect-minted :
        (fuel offset : ℕ)
        → 0 < offset
        → offset ≤ length items
        → length items - offset < fuel
        → collect fuel (c.encode (minted offset)) ≡ some (drop offset items)
    unfolding collect
    collect-minted zero offset h k l = absurd (omega arith)
    collect-minted (suc fuel) offset h k l = rw (paginate-minted offset h k) (
        page_step fuel offset k
          λ stop a b. collect-minted fuel stop (omega arith) (omega arith) (omega arith))

    -- With pages of a positive size, a client that starts with no cursor and follows the ones it is
    -- given collects exactly the list, each item once and in order, in at most one request more
    -- than there are items.
    pub collect-items : collect (suc (length items)) [] ≡ some items
    unfolding collect paginate start_offset page_or
    collect-items = elim (Bool-cases (leb (length items) (pos_part size))) [
      | inl one_page ↦ rw (positive, one_page) refl
      | inr several ↦
          rw (positive, several)
            (page_step (length items) 0 (omega arith)
              λ stop a b. collect-minted (length items) stop a (omega arith) (omega arith))
    ]
