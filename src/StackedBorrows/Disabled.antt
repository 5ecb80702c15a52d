-- ===== src/StackedBorrows/Disabled.antt =====
-- stack.rs: what disabling items does to a stack and its cache.
use miri.Base.{
  true-ne-false, ℕ, ◌+◌, ◌≡◌, ◌⊎◌, refl, sym, ◌∙◌, ap, subst, Bool, true, false, not, ◌&&◌, ◌==◌,
  if◌then◌else◌, Option, none, some, List, [], ◌∷◌, length, get_elem?, zero, suc, arith, inl, inr,
  ==_iff,
}
use mathlib.Core.Option.{some-injective}
use miri.StackedBorrows.Stack.{Item, Cached, Range}
use miri.StackedBorrows.Disable.{disabled_item, disable_tag, hits, cons_to, disable_from}

-- an item at an index is disabled, and has the tag
abbrev pub Hit : ℕ → Range → List Item → ℕ → Type 0
Hit i r l tag =
    (j : ℕ) × (a : Item) × (get_elem? l j ≡ some a) × (hits r (i + j) a ≡ true) × (a.tag ≡ tag)

-- An entry of the cache is disabled exactly where the loop has disabled an item with its tag.
abbrev pub Marked : ℕ → Range → List Item → Cached → Cached → Type 0
Marked i r l c c' =
    (c'.idx ≡ c.idx)
    × (((c'.item ≡ c.item) × (let item = c.item in ¬ Hit i r l item.tag))
        ⊎ ((c'.item ≡ disabled_item c.item) × (let item = c.item in Hit i r l item.tag)))

pub record Looped (i : ℕ) (r : Range) (l : List Item) (cache : List Cached) (l' : List Item)
    (cache' : List Cached) : Type 0 where
  pub same_length : length l' ≡ length l
  pub same_size : length cache' ≡ length cache
  pub items :
      (j : ℕ) (a : Item)
      → get_elem? l j ≡ some a
      → get_elem? l' j ≡ some (if hits r (i + j) a then disabled_item a else a)
  pub entries :
      (p : ℕ) (c' : Cached)
      → get_elem? cache' p ≡ some c'
      → (c : Cached) × (get_elem? cache p ≡ some c) × Marked i r l c c'

get-disable_tag :
    (tag : ℕ) (cache : List Cached) (p : ℕ) (c' : Cached)
    → get_elem? (disable_tag tag cache) p ≡ some c'
    → (c : Cached) × (get_elem? cache p ≡ some c)
      × (c' ≡ (
          let item = c.item in
          record c { item = if item.tag == tag then disabled_item item else item }))
get-disable_tag tag [] p c' e = cc
get-disable_tag tag (c ∷ l) zero c' e = (c, refl, sym (some-injective _ c' e))
get-disable_tag tag (c ∷ l) (suc p) c' e = get-disable_tag tag l p c' e

length-disable_tag : (tag : ℕ) (cache : List Cached) → length (disable_tag tag cache) ≡ length cache
length-disable_tag tag [] = refl
length-disable_tag tag (c ∷ l) = ap suc (length-disable_tag tag l)

shift_index : (i j : ℕ) → (i + 1) + j ≡ i + suc j
shift_index i j = omega arith

Hit-later :
    (i : ℕ) (r : Range) (item : Item) (l : List Item) (tag : ℕ)
    → Hit (i + 1) r l tag
    → Hit i r (item ∷ l) tag
Hit-later i r item l tag (j, a, e, h, t) =
    (suc j, a, e, subst (λ k. hits r k a ≡ true) (shift_index i j) h, t)

Hit-now :
    (i : ℕ) (r : Range) (item : Item) (l : List Item) (tag : ℕ)
    → hits r i item ≡ true
    → item.tag ≡ tag
    → Hit i r (item ∷ l) tag
Hit-now i r item l tag h t = (0, item, refl, subst (λ k. hits r k item ≡ true) (omega arith) h, t)

-- an item that is hit is the head or among the others
Hit-split :
    (i : ℕ) (r : Range) (item : Item) (l : List Item) (tag : ℕ)
    → Hit i r (item ∷ l) tag
    → ((hits r i item ≡ true) × (item.tag ≡ tag)) ⊎ Hit (i + 1) r l tag
Hit-split i r item l tag (zero, a, e, h, t) =
    let same = sym (some-injective item a e) in
    inl (
      subst (λ b. hits r i b ≡ true) same (subst (λ k. hits r k a ≡ true) (omega arith) h),
      ap Item.tag (sym same) ∙ t,
    )
Hit-split i r item l tag (suc j, a, e, h, t) =
    inr (j, a, e, subst (λ k. hits r k a ≡ true) (sym (shift_index i j)) h, t)

-- an entry marked by the head, then by the others
hit-Marked :
    (i : ℕ) (r : Range) (item : Item) (l : List Item) (c c' : Cached)
    → hits r i item ≡ true
    → (t : Bool) → (let cached = c.item in (cached.tag == item.tag) ≡ t)
    → Marked
        (i + 1)
        r
        l
        (let cached = c.item in record c { item = if t then disabled_item cached else cached })
        c'
    → Marked i r (item ∷ l) c c'
hit-Marked i r item l c c' h true e (n, inl (p, q)) =
    (n, inr (p, Hit-now i r item l _ h (sym ((==_iff _ item.tag).0 e))))
hit-Marked i r item l c c' h true e (n, inr (p, q)) =
    (n, inr (p, Hit-now i r item l _ h (sym ((==_iff _ item.tag).0 e))))
hit-Marked i r item l c c' h false e (n, inl (p, q)) = (
  n,
  inl (p, λ x. elim (Hit-split i r item l _ x) [ inl (u, v) ↦ ground (arith, e, v) | inr y ↦ q y ]),
)
hit-Marked i r item l c c' h false e (n, inr (p, q)) = (n, inr (p, Hit-later i r item l _ q))

-- an entry where the head is not disabled
missed-Marked :
    (i : ℕ) (r : Range) (item : Item) (l : List Item) (c c' : Cached)
    → hits r i item ≡ false
    → Marked (i + 1) r l c c'
    → Marked i r (item ∷ l) c c'
missed-Marked i r item l c c' h (n, inl (p, q)) = (
  n,
  inl (
    p,
    λ x. elim (Hit-split i r item l _ x) [ inl (u, v) ↦ true-ne-false (sym u ∙ h) | inr y ↦ q y ],
  ),
)
missed-Marked i r item l c c' h (n, inr (p, q)) = (n, inr (p, Hit-later i r item l _ q))

items_after :
    (i : ℕ) (r : Range) (item new : Item) (l l' : List Item)
    → new ≡ (if hits r i item then disabled_item item else item)
    → ((j : ℕ) (a : Item)
        → get_elem? l j ≡ some a
        → get_elem? l' j ≡ some (if hits r ((i + 1) + j) a then disabled_item a else a))
    → (j : ℕ) (a : Item) → get_elem? (item ∷ l) j ≡ some a
    → get_elem? (new ∷ l') j ≡ some (if hits r (i + j) a then disabled_item a else a)
items_after i r item new l l' n k zero a e =
    subst (λ b. some new ≡ some (if hits r (i + 0) b then disabled_item b else b))
      (some-injective item a e)
      (ap some (n ∙ ap (λ m. if hits r m item then disabled_item item else item) (omega arith)))
items_after i r item new l l' n k (suc j) a e =
    k j a e ∙ ap (λ m. some (if hits r m a then disabled_item a else a)) (shift_index i j)

-- the head of the stack is disabled
hit-Looped :
    (i : ℕ) (r : Range) (item : Item) (l l' : List Item) (cache cache' : List Cached)
    → hits r i item ≡ true
    → Looped (i + 1) r l (disable_tag item.tag cache) l' cache'
    → Looped i r (item ∷ l) cache (disabled_item item ∷ l') cache'
hit-Looped i r item l l' cache cache' h k = record {
  same_length = ap suc k.same_length;
  same_size = k.same_size ∙ length-disable_tag item.tag cache;
  items = items_after i r item (disabled_item item) l l' (rw (h) refl) k.items;
  entries = λ p c' e.
      let x = k.entries p c' e in
      let y = get-disable_tag item.tag cache p (x.0) (x.1) in
      (
        y.0,
        y.1,
        hit-Marked i r item l (y.0) c' h _ refl (subst (λ d. Marked (i + 1) r l d c') (y.2) (x.2)),
      );
}

missed-Looped :
    (i : ℕ) (r : Range) (item : Item) (l l' : List Item) (cache cache' : List Cached)
    → hits r i item ≡ false
    → Looped (i + 1) r l cache l' cache'
    → Looped i r (item ∷ l) cache (item ∷ l') cache'
missed-Looped i r item l l' cache cache' h k = record {
  same_length = ap suc k.same_length;
  same_size = k.same_size;
  items = items_after i r item item l l' (rw (h) refl) k.items;
  entries =
      λ p c' e. let x = k.entries p c' e in (x.0, x.1, missed-Marked i r item l (x.0) c' h (x.2));
}

-- The visitor refuses an item that is to be disabled, or the loop is done.
abbrev pub LoopResult :
    ℕ → Range → (Item → Bool) → List Item → List Cached → Option (List Item × List Cached) → Type 0
LoopResult i r visitor l cache none =
    (j : ℕ) × (a : Item) × (get_elem? l j ≡ some a)
    × (hits r (i + j) a ≡ true)
    × (visitor a ≡ false)
LoopResult i r visitor l cache (some (l', cache')) = Looped i r l cache l' cache'

refused_later :
    (i : ℕ) (r : Range) (visitor : Item → Bool) (item : Item) (l : List Item)
    (cache cache1 : List Cached)
    → LoopResult (i + 1) r visitor l cache1 none
    → LoopResult i r visitor (item ∷ l) cache none
refused_later i r visitor item l cache cache1 (j, a, e, h, t) =
    (suc j, a, e, subst (λ k. hits r k a ≡ true) (shift_index i j) h, t)

loop_step :
    (i : ℕ) (r : Range) (visitor : Item → Bool) (item : Item) (l : List Item) (cache : List Cached)
    (t : Bool) (b : Bool) (rest : Option (List Item × List Cached))
    → hits r i item ≡ t
    → visitor item ≡ b
    → LoopResult (i + 1) r visitor l (if t then disable_tag item.tag cache else cache) rest
    → LoopResult i r visitor
        (item ∷ l)
        cache
        (if t && not b then none else cons_to (if t then disabled_item item else item) rest)
loop_step i r visitor item l cache true false rest h v k =
    (0, item, refl, subst (λ m. hits r m item ≡ true) (omega arith) h, v)
loop_step i r visitor item l cache true true none h v k =
    refused_later i r visitor item l cache (disable_tag item.tag cache) k
loop_step i r visitor item l cache true true (some (l', cache')) h v k =
    hit-Looped i r item l l' cache cache' h k
loop_step i r visitor item l cache false b none h v k =
    refused_later i r visitor item l cache cache k
loop_step i r visitor item l cache false b (some (l', cache')) h v k =
    missed-Looped i r item l l' cache cache' h k

pub disable_from-LoopResult :
    (i : ℕ) (r : Range) (visitor : Item → Bool) (l : List Item) (cache : List Cached)
    → LoopResult i r visitor l cache (disable_from i r visitor l cache)
unfolding disable_from
disable_from-LoopResult i r visitor [] cache = record {
  same_length = refl;
  same_size = refl;
  items = λ j a e. cc;
  entries = λ p c' e. (c', e, (refl, inl (refl, λ x. absurd (no_item x))));
}
  where
    no_item : {tag : ℕ} → ¬ Hit i r [] tag
    no_item (j, a, e, h, t) = cc
disable_from-LoopResult i r visitor (item ∷ l) cache =
    loop_step i r visitor item l cache (hits r i item) (visitor item) _ refl refl (
      disable_from-LoopResult (i + 1) r visitor l
        (if hits r i item then disable_tag item.tag cache else cache))
