-- ===== src/Initcalls/Tests.antt =====
-- Functions of two levels, linked in the wrong order.
use ohmylib.Prelude.{◌≡◌, refl, Bool, true, List, [], ◌∷◌}
use ohmylib.Initcalls.{core, late, Initcall, do_initcalls}
use ohmylib.Initcalls.Order.{IsSorted, count_calls, do_initcalls_lem}

abbrev linked : List Initcall
linked =
    record { level = late; fn = 1 }
    ∷ record { level = core; fn = 2 }
    ∷ record { level = core; fn = 3 }
    ∷ []

abbrev every : Initcall → Bool
every e = true

calls_in_order :
    do_initcalls linked
    ≡ record { level = core; fn = 2 }
      ∷ record { level = core; fn = 3 }
      ∷ record { level = late; fn = 1 }
      ∷ []
unfolding do_initcalls
calls_in_order = refl

do_initcalls_example :
    IsSorted (do_initcalls linked) × (count_calls every (do_initcalls linked) ≡ 3)
do_initcalls_example = do_initcalls_lem linked every
