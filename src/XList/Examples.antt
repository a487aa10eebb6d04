-- ===== src/XList/Examples.antt =====
-- The theorems of the list at concrete lists.
use phlox.Common.{◌≡◌, refl, false, some, [], ◌∷◌, arith}
use phlox.XList.{null, update, XList, xlist_remove_unsafe, xlist_remove, xlist_isempty}
use phlox.XList.Represents.{IsList, Extracted}
use phlox.XList.Splice.{xlist_remove_unsafe-IsList}

-- Three elements, at the addresses 10, 20 and 30.
abbrev three : XList
three = record {
  first = 10;
  last = 30;
  count = 3;
  prev = update (update (λ _. null) 20 10) 30 20;
  next = update (update (λ _. null) 10 20) 20 30;
}

three-IsList : IsList three (10 ∷ 20 ∷ 30 ∷ [])
three-IsList = record {
  chain = omega arith;
  distinct = (refl, (refl, (refl, tt)));
  counted = refl;
  small = omega arith;
}

xlist_remove_unsafe-IsList_example :
    Extracted three 20 (10 ∷ 20 ∷ 30 ∷ []) (10 ∷ 30 ∷ []) (xlist_remove_unsafe three 20)
xlist_remove_unsafe-IsList_example =
    xlist_remove_unsafe-IsList three (10 ∷ []) 20 (30 ∷ []) three-IsList

-- A run of the routines: 10 is found and removed, and 40 is not found.
removes_ten : (xlist_remove three 40 ≡ some (false, three)) × (xlist_isempty three ≡ false)
unfolding xlist_remove xlist_isempty
removes_ten = (refl, refl)
