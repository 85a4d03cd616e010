-- ===== src/Workspace/Sidebar/Order.antt =====
-- cmux/src/model/workspace.rs: the comparisons that pick the entry to evict are strict orders.
use cmux_gtk.Prelude.{
  ℤ, lt_int_irrefl, lt_int_trans, lt_int_connex, ◌≡◌, true, false, arith, F64, IsOrdered,
}
use cmux_gtk.Bounded.Least.{IsComparison}
use cmux_gtk.Workspace.Sidebar.{older, before, lower, lower_block}

module _ {F : Type 0} ⦃f : F64 F⦄ (law : IsOrdered f) where
  before_irrefl : (p : ℤ) (t : F) → before p t p t ≡ false
  before_irrefl p t = ground (arith, lt_int_irrefl p, law.irrefl t)

  before_trans :
      (p q r : ℤ) (t u v : F)
      → before p t q u ≡ true
      → before q u r v ≡ true
      → before p t r v ≡ true
  before_trans p q r t u v h k = ground (
    arith,
    lt_int_trans p q r,
    lt_int_trans q r p,
    lt_int_trans r p q,
    lt_int_connex p q,
    lt_int_connex q r,
    lt_int_connex p r,
    lt_int_irrefl p,
    lt_int_irrefl q,
    lt_int_irrefl r,
    law.trans t u v,
  )

  pub older-IsComparison : IsComparison (older {F = F})
  older-IsComparison = record {
    irrefl = λ x. law.irrefl x.timestamp;
    trans = λ x y z. law.trans x.timestamp y.timestamp z.timestamp;
  }

  pub lower-IsComparison : IsComparison (lower {F = F})
  lower-IsComparison = record {
    irrefl = λ x. before_irrefl x.priority x.timestamp;
    trans =
        λ x y z. before_trans x.priority y.priority z.priority x.timestamp y.timestamp z.timestamp;
  }

  pub lower_block-IsComparison : IsComparison (lower_block {F = F})
  lower_block-IsComparison = record {
    irrefl = λ x. before_irrefl x.priority x.timestamp;
    trans =
        λ x y z. before_trans x.priority y.priority z.priority x.timestamp y.timestamp z.timestamp;
  }
