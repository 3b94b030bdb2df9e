-- ===== src/Examples/Synonyms.antt =====
-- The ports 1 and 2 have the lists 0 and 1; port 3 has none.
use hwt_hls.Prelude.{ℕ, zero, suc, ◌≡◌, refl, Option, none, some, List, [], ◌∷◌}
use hwt_hls.Prelude.Result.{err, attribute_error}
use hwt_hls.Allocator.Synonyms.{PortSynonyms, add_port_synonym}
use hwt_hls.Allocator.Synonyms.Shared.{Linked, add_port_synonym-Linked}
use hwt_hls.Examples.UniqLists.{uniq_lists}

abbrev port_lists : ℕ → Option ℕ
port_lists (suc zero) = some 0
port_lists (suc (suc zero)) = some 1
port_lists _ = none

abbrev list_members : ℕ → List ℕ
list_members zero = 1 ∷ 4 ∷ []
list_members (suc zero) = 2 ∷ 5 ∷ 6 ∷ []
list_members _ = []

abbrev ports : PortSynonyms
ports = record { list_of = port_lists; members = list_members; next_list = 2 }

second_unknown : add_port_synonym uniq_lists 1 3 ports ≡ err attribute_error
unfolding add_port_synonym
second_unknown = refl

add_port_synonym-Linked_example :
    Linked 1 2 ports (some 0) (some 1) (add_port_synonym uniq_lists 1 2 ports)
add_port_synonym-Linked_example = add_port_synonym-Linked uniq_lists 1 2 ports
