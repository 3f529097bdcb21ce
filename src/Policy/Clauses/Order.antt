-- ===== src/Policy/Clauses/Order.antt =====
-- `compileClauses` of policy/policy.go sorts the constraints that a map gives it in any order.
use mathlib.Core.List.{Permᴰ, Nodup, Nodup-cons, mem-cons_self}
use mathlib.Core.List.Perm
use fold.Prelude.{
  true, false, List, [], ◌∷◌, map, Str, str_le, str_le_total, str_le_antisymm, str_le_trans,
  join-split, ◌≡◌, refl, sym, ap, ap₂, ◌∙◌, ◌≢◌, arith, Bool-cases, inl, inr,
}
use fold.Value.{Any, Fields, end, field}
use fold.Policy.Clauses.{
  dot, CompiledArg, path_name, insert_arg, sort_args, compile_arg, compile_args,
}

-- Two inserts commute, the first name before the second.
insert_arg_before :
    (c d : CompiledArg) (cs : List CompiledArg)
    → str_le (path_name c) (path_name d) ≡ true
    → str_le (path_name d) (path_name c) ≡ false
    → insert_arg c (insert_arg d cs) ≡ insert_arg d (insert_arg c cs)
unfolding insert_arg
insert_arg_before c d [] h k = ground arith
insert_arg_before c d (e ∷ cs) h k =
    ground (arith, insert_arg_before c d cs, str_le_trans (path_name c) (path_name d) (path_name e))

insert_arg_comm :
    (c d : CompiledArg) (cs : List CompiledArg)
    → path_name c ≢ path_name d
    → insert_arg c (insert_arg d cs) ≡ insert_arg d (insert_arg c cs)
insert_arg_comm c d cs h = elim (Bool-cases (str_le (path_name c) (path_name d))) [
  | inr e ↦ sym (insert_arg_before d c cs (str_le_total (path_name c) (path_name d) e) e)
  | inl e ↦ elim (Bool-cases (str_le (path_name d) (path_name c))) [
    | inl f ↦ absurd (h (str_le_antisymm (path_name c) (path_name d) e f))
    | inr f ↦ insert_arg_before c d cs e f
  ]
]

abbrev names_of : List CompiledArg → List Str
names_of = map path_name

sort_args-swap :
    (a b a' b' : CompiledArg) (cs : List CompiledArg)
    → a ≡ b'
    → b ≡ a'
    → path_name a ≢ path_name b
    → sort_args (a ∷ b ∷ cs) ≡ sort_args (a' ∷ b' ∷ cs)
unfolding sort_args
sort_args-swap a b a' b' cs e f h =
    insert_arg_comm a b (sort_args cs) h
    ∙ ap₂ (λ x y. insert_arg x (insert_arg y (sort_args cs))) f e

sort_args-perm :
    {xs ys : List CompiledArg} → Permᴰ xs ys → Nodup (names_of xs) → sort_args xs ≡ sort_args ys
unfolding sort_args
sort_args-perm Permᴰ.nil d = refl
sort_args-perm (Permᴰ.cons e p) d = ap₂ insert_arg e (sort_args-perm p (Nodup-cons.0 d).1)
sort_args-perm (Permᴰ.swap {a = a} {b = b} {a' = a'} {b' = b'} {l = cs} e f) d =
    sort_args-swap a b a' b' cs e f λ same. (Nodup-cons.0 d).0 (rw same mem-cons_self)
sort_args-perm (Permᴰ.trans p r) d =
    sort_args-perm p d ∙ sort_args-perm r (Perm.nodup (Perm.map path_name ∣ p ∣₁) d)

Permᴰ-map : {A B : Type 0} (f : A → B) {xs ys : List A} → Permᴰ xs ys → Permᴰ (map f xs) (map f ys)
Permᴰ-map f Permᴰ.nil = Permᴰ.nil
Permᴰ-map f (Permᴰ.cons e p) = Permᴰ.cons (ap f e) (Permᴰ-map f p)
Permᴰ-map f (Permᴰ.swap e g) = Permᴰ.swap (ap f e) (ap f g)
Permᴰ-map f (Permᴰ.trans p r) = Permᴰ.trans (Permᴰ-map f p) (Permᴰ-map f r)

-- The entries of a map in one order of iteration.
unfoldable pub entries : Fields → List (Str × Any)
entries end = []
entries (field k v fs) = (k, v) ∷ entries fs

compile_args-entries : (fs : Fields) → compile_args fs ≡ map (λ e. compile_arg e.0 e.1) (entries fs)
unfolding compile_args entries
compile_args-entries end = refl
compile_args-entries (field k v fs) = ap (◌∷◌ (compile_arg k v)) (compile_args-entries fs)

names-keys :
    (es : List (Str × Any)) → names_of (map (λ e. compile_arg e.0 e.1) es) ≡ map (λ e. e.0) es
names-keys [] = refl
names-keys (e ∷ es) = ap₂ ◌∷◌ (join-split dot e.0) (names-keys es)

-- The compiled constraints of a clause, and with them the one that a denial blames, do not depend on
-- the order in which Go walks the clause's `args` map, whose keys are distinct.
pub compile_args-order :
    (fs gs : Fields)
    → Permᴰ (entries fs) (entries gs)
    → Nodup (map (λ e. e.0) (entries fs))
    → sort_args (compile_args fs) ≡ sort_args (compile_args gs)
compile_args-order fs gs p d =
    rw (compile_args-entries fs, compile_args-entries gs)
      (sort_args-perm (Permᴰ-map (λ e. compile_arg e.0 e.1) p) (rw (names-keys (entries fs)) d))
