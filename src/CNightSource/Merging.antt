-- ===== src/CNightSource/Merging.antt =====
-- The observed UTXOs of the four queries of `get_utxos_up_to_capacity`, in one sorted list.
use Prim.Native.Nat.{Ordering}
use midnight_node.Prelude.{List, ◌++◌}
use midnight_node.CNightObservation.Position.{header_compare}
use midnight_node.CNightObservation.Order.{IsOrder, header_compare-IsOrder}
use midnight_node.CNightObservation.Types.{ObservedUtxo}
use midnight_node.CNightSource.Sorting.{sort}

-- `ObservedUtxo::cmp`.
abbrev pub utxo_compare : ObservedUtxo → ObservedUtxo → Ordering
utxo_compare u v = header_compare u.header v.header

abbrev pub merge :
    List ObservedUtxo
    → List ObservedUtxo
    → List ObservedUtxo
    → List ObservedUtxo
    → List ObservedUtxo
merge registrations deregistrations creates spends =
    sort utxo_compare (registrations ++ deregistrations ++ creates ++ spends)

pub utxo_compare-IsOrder : IsOrder utxo_compare
utxo_compare-IsOrder = record {
  flips = λ u v. header_compare-IsOrder.flips u.header v.header;
  trans = λ u v w. header_compare-IsOrder.trans u.header v.header w.header;
  alike = λ u v w. header_compare-IsOrder.alike u.header v.header w.header;
}
