-- ===== src/Ops/Address.antt =====
-- The reports of the watch on the public address.
use toss_api_quant_trading.Store.{Store}
use toss_api_quant_trading.Prelude.{
  Option, String, ◌≡◌, true, ◌≢◌, false, Bool, arith, some, if◌then◌else◌, eq_iff, Bool-cases, none,
  inl, inr, refl,
}
use toss_api_quant_trading.Ops.{check_ip, given, has_changed, note_change}

unchanged : (x : Option String) → has_changed x x ≡ false
unchanged none = refl
unchanged (some ip) = ground (arith, eq_iff ip ip)

not_given : (x y : Option String) → given x ≡ false → has_changed x y ≡ false
not_given x y e = ground arith

changed_given : (x y : Option String) → has_changed x y ≡ true → (given x ≡ true) × (given y ≡ true)
changed_given x y e = (ground arith, ground arith)

changed_ne : (x y : Option String) → has_changed x y ≡ true → x ≢ y
changed_ne x y e p = let f = rw p at e in let g = unchanged y in absurd (cc)

settled_down : (x y : Option String) → has_changed x (if given x then x else y) ≡ false
settled_down x y = elim (Bool-cases (given x)) [
  | inl g ↦ let u = unchanged x in rw (g, g) (rw g at u)
  | inr g ↦ rw g refl
]

quiet : (g c : Bool) (t : Store) → c ≡ false → (if g then note_change c t else t) ≡ t
quiet true c t e = rw e refl
quiet false c t e = refl

-- A change is reported only where an address was found, another was kept, and the texts differ;
-- and after any check, the next one with the same address reports none and logs nothing.

pub check_ip-once :
    (current previous : Option String) (s t : Store)
    → ((check_ip current previous s).0.changed ≡ true
        → (given current ≡ true) × (given previous ≡ true) × (current ≢ previous))
      × ((check_ip current (check_ip current previous s).1 t).0.changed ≡ false)
      × ((check_ip current (check_ip current previous s).1 t).2 ≡ t)
unfolding check_ip
check_ip-once current previous s t =
    let calm = settled_down current previous in
    (
      λ e. let (a, b) = changed_given current previous e in (a, b, changed_ne current previous e),
      calm,
      quiet (given current) (has_changed current (if given current then current else previous)) t
          calm,
    )
