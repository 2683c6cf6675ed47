-- ===== src/Directory/Order.antt =====
-- What is the same in any two orders of the same rows by a key that rows may share.
use mathlib.Core.Logic.Or
use mathlib.Core.List.{
  Mem, Perm, mem-cons, mem-cons_self, mem-cons_of_mem, not-mem-nil, cons≢nil, head-eq_of_cons-eq,
  tail-eq_of_cons-eq,
}
use mathlib.Core.List.Perm
use mathlib.Core.Path.{ap₂}
use native.Mathlib.Bridge.{le_prop}
use conference_contact.Prelude.{ℕ, All, sym, ◌≤◌, ◌≡◌, refl, List, [], ◌∷◌, map, arith}

module _ {A : Type 0} (key : A → ℕ) where
  -- No row of a list is before this one.
  abbrev pub IsBelow : A → List A → Type 0
  IsBelow a l = (x : A) → Mem x l → key a ≤ key x

  abbrev pub IsOrdered : List A → Type 0
  IsOrdered [] = Unit
  IsOrdered (a ∷ l) = IsBelow a l × IsOrdered l

pub All-IsBelow :
    {A : Type 0} (key : A → ℕ) (a : A) (l : List A) → All (λ x. key a ≤ key x) l → IsBelow key a l
All-IsBelow key a [] below x m = absurd (not-mem-nil m)
All-IsBelow key a (b ∷ l) (here, below) x m =
    Or.elim le_prop (mem-cons.0 m) (λ e. rw e here) (All-IsBelow key a l below x)

abbrev Ordered : List ℕ → Type 0
Ordered = IsOrdered (λ n. n)

heads-le : (a b : ℕ) (l r : List ℕ) → Ordered (a ∷ l) → Perm (b ∷ r) (a ∷ l) → a ≤ b
heads-le a b l r (below, s) p =
    Or.elim le_prop (mem-cons.0 ((Perm.mem_iff p).0 mem-cons_self)) (λ e. rw e (omega arith))
      (below b)

-- Numbers have one order only.
one_order : (l r : List ℕ) → Ordered l → Ordered r → Perm l r → l ≡ r
one_order [] r sl sr p = Perm.nil-eq p
one_order (a ∷ l) [] sl sr p = Perm.eq-nil p
one_order (a ∷ l) (b ∷ r) sl sr p =
    let down = heads-le a b l r sl (Perm.symm p) in
    let up = heads-le b a r l sr p in
    let heads : a ≡ b = omega (arith, down, up) in
    let tails = Perm.cons_inv (Perm.trans p (Perm.symm (Perm.cons' heads Perm.rfl))) in
    ap₂ ◌∷◌ heads (one_order l r sl.1 sr.1 tails)

module _ {A : Type 0} (key : A → ℕ) where
  below-map :
      (n : ℕ) (l : List A) → ((x : A) → Mem x l → n ≤ key x) → (m : ℕ) → Mem m (map key l) → n ≤ m
  below-map n [] below m h = absurd (not-mem-nil h)
  below-map n (a ∷ l) below m h =
      Or.elim le_prop (mem-cons.0 h) (λ e. rw e (below a mem-cons_self))
        (below-map n l (λ x k. below x (mem-cons_of_mem a k)) m)

  map-IsOrdered : (l : List A) → IsOrdered key l → Ordered (map key l)
  map-IsOrdered [] s = tt
  map-IsOrdered (a ∷ l) (below, s) = (below-map (key a) l below, map-IsOrdered l s)

  same_keys : (l r : List A) → IsOrdered key l → IsOrdered key r → Perm l r → map key l ≡ map key r
  same_keys l r sl sr p =
      one_order (map key l) (map key r) (map-IsOrdered l sl) (map-IsOrdered r sr) (Perm.map key p)

  module _ {B : Type 0} (view : A → B) where
    same_views_of_keys :
        (l r : List A)
        → ((x y : A) → Mem x l → Mem y r → key x ≡ key y → view x ≡ view y)
        → map key l ≡ map key r
        → map view l ≡ map view r
    same_views_of_keys [] [] agree same = refl
    same_views_of_keys [] (y ∷ r) agree same = absurd (cons≢nil (sym same))
    same_views_of_keys (x ∷ l) [] agree same = absurd (cons≢nil same)
    same_views_of_keys (x ∷ l) (y ∷ r) agree same =
        ap₂ ◌∷◌ (agree x y mem-cons_self mem-cons_self (head-eq_of_cons-eq same)) (
          same_views_of_keys l r (λ a b m k. agree a b (mem-cons_of_mem x m) (mem-cons_of_mem y k))
            (tail-eq_of_cons-eq same))

    -- Two orders of the same rows agree on whatever the key decides among these rows.
    pub same_views :
        (rows l r : List A)
        → ((x y : A) → Mem x rows → Mem y rows → key x ≡ key y → view x ≡ view y)
        → (Perm l rows × IsOrdered key l)
        → (Perm r rows × IsOrdered key r)
        → map view l ≡ map view r
    same_views rows l r agree (pl, sl) (pr, sr) =
        same_views_of_keys l r
          (λ x y m k. agree x y ((Perm.mem_iff pl).0 m) ((Perm.mem_iff pr).0 k))
          (same_keys l r sl sr (Perm.trans pl (Perm.symm pr)))
