-- ===== src/Pb/Defaults/Depth.antt =====
-- How deep the calls of `pb_field_set_to_default` go.
use mathlib.Core.Path.{fun_ext}
use daily_diary.Base.{
  All-map, ℕ, zero, suc, ◌≤◌, ◌≡◌, refl, ap, ◌∙◌, arith, List, [], ◌∷◌, All, AllIn, AllIn-map,
  Option, none, some,
}
use daily_diary.Base.{Bool-cases, inl, inr, if◌then◌else◌, ◌==◌}
use daily_diary.Pb.{Field, ltype, ltype_extension, ltype_submessage}
use daily_diary.Pb.Iter.{Iter, field_at}
use daily_diary.Pb.Scalar.{Memory, load, store}
use daily_diary.Pb.Message.{Env, Extension}
use daily_diary.Pb.Defaults.{
  Change, and_change, each_iterator, message_iterators, iter_from_extension, init_data,
  regular_default,
}
use daily_diary.Pb.Defaults.{
  extension_defaults, iterator_defaults, pb_message_set_to_defaults, set_to_default,
  pb_field_set_to_default,
}

-- The fields of the message inside a field, at an address, and the extensions it stands for.
abbrev pub inside : Env → Field → ℕ → Option (List Iter)
inside env field dest =
    if ltype field.type == ltype_submessage
    then message_iterators (env.fields_at field.ptr) dest
    else some []

abbrev pub around : Env → Field → ℕ → List Extension
around env field p = if ltype field.type == ltype_extension then env.extensions_at p else []

-- `n` calls are enough for a field: `n - 1` are for each field inside and each extension.
abbrev pub HasDepth : ℕ → Env → Iter → Type 0
HasDepth zero env it = 1 ≤ 0
HasDepth (suc n) env it =
    ((dest : ℕ) → AllIn (HasDepth n env) (inside env (field_at it.start it.pos) dest))
    × ((p : ℕ)
        → All (λ x. HasDepth n env (iter_from_extension x))
            (around env (field_at it.start it.pos) p))

module _ (call call' : Iter → Change) where
  extensions-same :
      (xs : List Extension) (mem : Memory)
      → All (λ x. call (iter_from_extension x) ≡ call' (iter_from_extension x)) xs
      → extension_defaults call xs mem ≡ extension_defaults call' xs mem
  unfolding extension_defaults
  extensions-same [] mem es = refl
  extensions-same (x ∷ xs) mem (e, es) =
      ap (λ f. and_change (f (store 1 0 x.found_at mem)) (extension_defaults call xs)) e
      ∙ ap (λ k. and_change (call' (iter_from_extension x) (store 1 0 x.found_at mem)) k)
          (fun_ext (λ m. extensions-same xs m es))

  iterators-same :
      (its : List Iter) (mem : Memory)
      → All (λ it. call it ≡ call' it) its
      → iterator_defaults call its mem ≡ iterator_defaults call' its mem
  unfolding iterator_defaults
  iterators-same [] mem es = refl
  iterators-same (it ∷ its) mem (e, es) =
      ap (λ f. and_change (f mem) (iterator_defaults call its)) e
      ∙ ap (λ k. and_change (call' it mem) k) (fun_ext (λ m. iterators-same its m es))

  each-same :
      (its : Option (List Iter)) (mem : Memory)
      → AllIn (λ it. call it ≡ call' it) its
      → each_iterator (iterator_defaults call) its mem
        ≡ each_iterator (iterator_defaults call') its mem
  unfolding each_iterator
  each-same none mem es = refl
  each-same (some its) mem es = iterators-same its mem es

  module _ (env : Env) (it : Iter) where
    init_data-same :
        (mem : Memory)
        → AllIn (λ i. call i ≡ call' i) (inside env (field_at it.start it.pos) it.pdata)
        → init_data
            (pb_message_set_to_defaults call (env.fields_at (field_at it.start it.pos).ptr))
            (field_at it.start it.pos)
            it.pdata
            mem
          ≡ init_data
              (pb_message_set_to_defaults call' (env.fields_at (field_at it.start it.pos).ptr))
              (field_at it.start it.pos)
              it.pdata
              mem
    unfolding init_data pb_message_set_to_defaults
    init_data-same mem es =
        elim (Bool-cases (ltype (field_at it.start it.pos).type == ltype_submessage)) [
          | inl c ↦ rw c (each-same _ mem (simp c at es))
          | inr c ↦ rw c refl
        ]

    regular-same :
        (mem : Memory)
        → AllIn (λ i. call i ≡ call' i) (inside env (field_at it.start it.pos) it.pdata)
        → regular_default
            (pb_message_set_to_defaults call (env.fields_at (field_at it.start it.pos).ptr))
            (field_at it.start it.pos)
            it.pdata
            it.psize
            mem
          ≡ regular_default
              (pb_message_set_to_defaults call' (env.fields_at (field_at it.start it.pos).ptr))
              (field_at it.start it.pos)
              it.pdata
              it.psize
              mem
    unfolding regular_default
    regular-same mem es =
        rw (init_data-same mem es, init_data-same (store 1 0 it.psize mem) es) refl

    set-same :
        ((dest : ℕ) → AllIn (λ i. call i ≡ call' i) (inside env (field_at it.start it.pos) dest))
        → ((p : ℕ)
            → All
                (λ x. call (iter_from_extension x) ≡ call' (iter_from_extension x))
                (around env (field_at it.start it.pos) p))
        → (mem : Memory) → set_to_default call env it mem ≡ set_to_default call' env it mem
    unfolding set_to_default
    set-same ins ext mem =
        elim (Bool-cases (ltype (field_at it.start it.pos).type == ltype_extension)) [
          | inl c ↦ rw c (extensions-same _ mem (simp c at ext (load 8 it.pdata mem)))
          | inr c ↦ rw c (regular-same mem (ins it.pdata))
        ]

-- Where `n` calls are enough for a field, `pb_field_set_to_default` does the same on any two
-- stacks with room for `n` calls.
pub pb_field_set_to_default_deep_enough :
    (n depth depth' : ℕ) (env : Env) (it : Iter)
    → HasDepth n env it
    → n ≤ depth
    → n ≤ depth'
    → pb_field_set_to_default depth env it ≡ pb_field_set_to_default depth' env it
unfolding pb_field_set_to_default
pb_field_set_to_default_deep_enough zero d d' env it h k k' = absurd (omega (arith, h))
pb_field_set_to_default_deep_enough (suc n) zero d' env it h k k' = absurd (omega arith)
pb_field_set_to_default_deep_enough (suc n) (suc d) zero env it h k k' = absurd (omega arith)
pb_field_set_to_default_deep_enough (suc n) (suc d) (suc d') env it (ins, ext) k k' =
    fun_ext (λ mem.
      set-same _ _ env it
        (λ dest.
          AllIn-map
            (λ i deep.
              pb_field_set_to_default_deep_enough n d d' env i deep (omega arith) (omega arith))
            _ (ins dest))
        (λ p.
          All-map
            (λ x deep.
              pb_field_set_to_default_deep_enough n d d' env (iter_from_extension x) deep
                (omega arith) (omega arith))
            _ (ext p))
        mem)
