-- ===== src/Mage/OperatorCr/Order.antt =====
-- The order of the objects is a strict weak order.
use rhobs.Base.{◌≡◌, text_comparable, true, false, arith}
use rhobs.Base.Sort.{StrictWeak}
use rhobs.Base.Text.Order.{text_lt_asymm, text_lt_total, text_lt_cotrans}
use rhobs.Mage.Value.{Object}
use rhobs.Mage.OperatorCr.{less}

less_asymm : (x y : Object) → less x y ≡ true → less y x ≡ false
unfolding less
less_asymm x y h = ground (
  arith,
  text_lt_asymm x.kind y.kind,
  text_lt_asymm x.name y.name,
  text_comparable.equal_iff x.kind y.kind,
  text_comparable.equal_iff y.kind x.kind,
)

less_cotrans : (x y z : Object) → less y x ≡ false → less z y ≡ false → less z x ≡ false
unfolding less
less_cotrans x y z h k = ground (
  arith,
  text_lt_cotrans x.kind y.kind z.kind,
  text_lt_cotrans x.name y.name z.name,
  text_lt_total x.kind y.kind,
  text_lt_total y.kind x.kind,
  text_comparable.equal_iff x.kind y.kind,
  text_comparable.equal_iff y.kind x.kind,
  text_comparable.equal_iff z.kind y.kind,
  text_comparable.equal_iff z.kind x.kind,
)

pub less-StrictWeak : StrictWeak less
less-StrictWeak = record { asymm = less_asymm; cotrans = less_cotrans }
