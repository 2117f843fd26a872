-- ===== src/Tests/Islands.antt =====
-- Five nodes of which two are an island.
use convergent_routing_analy.Prelude.{ℕ, ◌<◌, ◌≡◌, ◌↔◌, refl, List, [], ◌∷◌, none, some, arith}
use convergent_routing_analy.Graph.Connectivity.{Link}
use convergent_routing_analy.Tests.Numbers.{fin, numbers}
use convergent_routing_analy.Graph.Connectivity.Classes.{Connected, LinksWithin}
use convergent_routing_analy.Graph.Connectivity.Warning.{warn_if_not_weakly_connected}
use convergent_routing_analy.Graph.Connectivity.Warning.Silent.{warn_if_not_weakly_connected_iff}

abbrev between : ℕ → ℕ → Link
between u v = record { from = u; to = v }

abbrev island : List Link
island = between 0 1 ∷ between 3 2 ∷ between 1 4 ∷ []

island-LinksWithin : LinksWithin 5 island
island-LinksWithin =
    (omega arith, omega arith, (omega arith, omega arith, (omega arith, omega arith, tt)))

-- Two nodes without an edge: the first is the largest component.
apart_warned :
    warn_if_not_weakly_connected (λ cs. cs) 2 []
    ≡ some (record {
      components = 2;
      largest_component_nodes = 1;
      largest_component_fraction = fin 0;
      unreachable_nodes = 1;
      sample_unreachable_nodes = 1 ∷ [];
    })
unfolding warn_if_not_weakly_connected
apart_warned = refl

warn_if_not_weakly_connected_iff_example :
    (warn_if_not_weakly_connected (λ cs. cs) 5 island ≡ none)
    ↔ ((x y : ℕ) → x < 5 → y < 5 → Connected island x y)
warn_if_not_weakly_connected_iff_example =
    warn_if_not_weakly_connected_iff (λ cs. cs) (λ cs. refl) 5 island island-LinksWithin
