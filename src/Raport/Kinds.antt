-- ===== src/Raport/Kinds.antt =====
-- The types of bulletin (wmoraport::WmoRaport), the sets of them, and their names.
use kvnorcom.Prelude.{ℕ, ◌≡◌, Bool, List, [], ◌∷◌, any, ltb, ◌==◌, if◌then◌else◌, arith}
use kvnorcom.Prelude.Bytes.{Bytes, codes}
use kvnorcom.Map.Order.{StrictWeakOrder}

pub data WmoRaport : Type 0 where
  synop metar temp pilo arep drau bath tide bufr_surface : WmoRaport

-- The value of the enumerator, by which sets and maps of them are ordered.
abbrev pub ordinal : WmoRaport → ℕ
ordinal synop = 0
ordinal metar = 1
ordinal temp = 2
ordinal pilo = 3
ordinal arep = 4
ordinal drau = 5
ordinal bath = 6
ordinal tide = 7
ordinal bufr_surface = 8

abbrev pub less_raport : WmoRaport → WmoRaport → Bool
less_raport a b = ltb (ordinal a) (ordinal b)

abbrev pub same_raport : WmoRaport → WmoRaport → Bool
same_raport a b = ordinal a == ordinal b

-- std::set<WmoRaport>: the elements in their order.
abbrev pub WmoRaports : Type 0
WmoRaports = List WmoRaport

-- set::insert
unfoldable pub insert : WmoRaport → WmoRaports → WmoRaports
insert r [] = r ∷ []
insert r (s ∷ rs) =
    if less_raport s r then s ∷ insert r rs else if less_raport r s then r ∷ s ∷ rs else s ∷ rs

-- `set.find( r ) != set.end()`
abbrev pub contains : WmoRaports → WmoRaport → Bool
contains rs r = any (λ s. same_raport s r) rs

-- wmoraportToString
unfoldable pub wmoraport_to_string : WmoRaport → Bytes
wmoraport_to_string synop = codes "SYNOP"
wmoraport_to_string metar = codes "METAR"
wmoraport_to_string temp = codes "TEMP"
wmoraport_to_string pilo = codes "PILO"
wmoraport_to_string arep = codes "AREP"
wmoraport_to_string drau = codes "DRAU"
wmoraport_to_string bath = codes "BATH"
wmoraport_to_string tide = codes "TIDE"
wmoraport_to_string bufr_surface = codes "BUFR_SURFACE"

-- operator<< of a WmoRaport
unfoldable pub print_raport : WmoRaport → Bytes
print_raport arep = codes "AREP"
print_raport bath = codes "BATH"
print_raport drau = codes "DRAU"
print_raport metar = codes "METAR"
print_raport pilo = codes "PILO"
print_raport synop = codes "SYNOP"
print_raport temp = codes "TEMP"
print_raport tide = codes "TIDE"
print_raport bufr_surface = codes "BUFR_SURFACE"

pub less_raport-StrictWeakOrder : StrictWeakOrder less_raport
less_raport-StrictWeakOrder = record {
  irrefl = λ a. ground arith;
  trans = λ a b c h e. ground arith;
  negative_trans = λ a b c h e. ground arith;
}

pub ordinal-injective : (a b : WmoRaport) → ordinal a ≡ ordinal b → a ≡ b
ordinal-injective a b h = ground arith
