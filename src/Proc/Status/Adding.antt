-- ===== src/Proc/Status/Adding.antt =====
-- `addNew` on states that are new: it does not fail, and they stand behind the others.
use example_docker_volume_pl.Common.{
  ◌≡◌, refl, sym, ◌∙◌, Bool, true, false, ◌&&◌, none, List, [], ◌∷◌, ◌++◌, arith, if◌then◌else◌, ok,
  append-nil, append_assoc,
}
use example_docker_volume_pl.Common.Map.{Map, lookup, insert, IsFresh, IsMap}
use example_docker_volume_pl.Common.Map.Laws.{lookup-IsFresh}
use example_docker_volume_pl.Common.Text.{Str, str_eq, str_eq_sym}
use example_docker_volume_pl.Proc.Status.{ProcessStatus, Globals, add_new, add_if}

abbrev pub when : Bool → List (ProcessStatus × Str) → List (ProcessStatus × Str)
when true states = states
when false states = []

-- No state of the first list has a name in the second.
abbrev pub AllFresh : List (ProcessStatus × Str) → Map Str → Type 0
AllFresh [] m = Unit {0}
AllFresh ((s, _) ∷ add) m = IsFresh s m × AllFresh add m

is_fresh : Str → Map Str → Bool
is_fresh k [] = true
is_fresh k ((j, w) ∷ m) = if str_eq j k then false else is_fresh k m

is_fresh-IsFresh : (k : Str) (m : Map Str) → is_fresh k m ≡ true → IsFresh k m
unfolding is_fresh
is_fresh-IsFresh k [] h = tt
is_fresh-IsFresh k ((j, w) ∷ m) h = ground (arith, is_fresh-IsFresh k m)

unfoldable pub all_fresh : List (ProcessStatus × Str) → Map Str → Bool
unfolding is_fresh str_eq
all_fresh [] m = true
all_fresh ((s, _) ∷ add) m = is_fresh s m && all_fresh add m

-- For lists that are known the tests decide.
pub all_fresh-AllFresh :
    (add : List (ProcessStatus × Str)) (m : Map Str) → all_fresh add m ≡ true → AllFresh add m
unfolding all_fresh
all_fresh-AllFresh [] m h = tt
all_fresh-AllFresh ((s, t) ∷ add) m h =
    ground (arith, is_fresh-IsFresh s m, all_fresh-AllFresh add m)

unfoldable pub is_map : Map Str → Bool
unfolding is_fresh str_eq
is_map [] = true
is_map ((j, w) ∷ m) = is_fresh j m && is_map m

pub is_map-IsMap : (m : Map Str) → is_map m ≡ true → IsMap m
unfolding is_map
is_map-IsMap [] h = tt
is_map-IsMap ((j, w) ∷ m) h = ground (arith, is_fresh-IsFresh j m, is_map-IsMap m)

Fresh-append : (k : Str) (xs ys : Map Str) → IsFresh k xs → IsFresh k ys → IsFresh k (xs ++ ys)
Fresh-append k [] ys hx hy = hy
Fresh-append k ((j, w) ∷ xs) ys (h, hx) hy = (h, Fresh-append k xs ys hx hy)

pub AllFresh-append :
    (add xs ys : Map Str) → AllFresh add xs → AllFresh add ys → AllFresh add (xs ++ ys)
AllFresh-append [] xs ys hx hy = tt
AllFresh-append ((s, t) ∷ add) xs ys (h, hx) (k, hy) =
    (Fresh-append s xs ys h k, AllFresh-append add xs ys hx hy)

pub AllFresh-when :
    (add xs ys : Map Str) (c : Bool)
    → AllFresh add xs
    → AllFresh add ys
    → AllFresh add (xs ++ when c ys)
AllFresh-when add xs ys true hx hy = AllFresh-append add xs ys hx hy
AllFresh-when add xs ys false hx hy = rw append-nil hx

insert-fresh : (k v : Str) (m : Map Str) → IsFresh k m → insert k v m ≡ m ++ (k, v) ∷ []
unfolding insert
insert-fresh k v [] h = refl
insert-fresh k v ((j, w) ∷ m) (h, hs) = rw (h, insert-fresh k v m hs) refl

IsFresh-AllFresh : (s t : Str) (add : Map Str) → IsFresh s add → AllFresh add ((s, t) ∷ [])
IsFresh-AllFresh s t [] h = tt
IsFresh-AllFresh s t ((j, w) ∷ add) (h, hs) =
    ((str_eq_sym s j ∙ h, tt), IsFresh-AllFresh s t add hs)

add_new-step :
    (s t : Str) (add m : Map Str) (g : Globals)
    → lookup s m ≡ none
    → add_new ((s, t) ∷ add) (record g { process_status_names = m })
      ≡ add_new add (record g { process_status_names = insert s t m })
unfolding add_new
add_new-step s t add m g h = ground (arith, h)

-- States that are new, each of them once, are all added.
pub add_new-fresh :
    (add m : Map Str) (g : Globals)
    → IsMap add
    → AllFresh add m
    → add_new add (record g { process_status_names = m })
      ≡ (ok tt, record g { process_status_names = m ++ add })
unfolding add_new
add_new-fresh [] m g h f = rw append-nil refl
add_new-fresh ((s, t) ∷ add) m g (h, hs) (f, fs) =
    add_new-step s t add m g (lookup-IsFresh s m f)
    ∙ rw (insert-fresh s t m f, sym (append_assoc m ((s, t) ∷ []) add))
        (add_new-fresh add (m ++ (s, t) ∷ []) g hs
          (AllFresh-append add m ((s, t) ∷ []) fs (IsFresh-AllFresh s t add h)))

AllFresh-cons :
    (add : Map Str) (j w : Str) (m : Map Str)
    → AllFresh add ((j, w) ∷ m)
    → IsFresh j add × AllFresh add m
AllFresh-cons [] j w m f = (tt, tt)
AllFresh-cons ((s, t) ∷ add) j w m ((f, fm), fs) =
    let (g, gs) = AllFresh-cons add j w m fs in ((str_eq_sym s j ∙ f, g), (fm, gs))

append-IsMap : (xs ys : Map Str) → IsMap xs → IsMap ys → AllFresh ys xs → IsMap (xs ++ ys)
append-IsMap [] ys hx hy f = hy
append-IsMap ((j, w) ∷ xs) ys (h, hx) hy f =
    let (g, gs) = AllFresh-cons ys j w xs f in
    (Fresh-append j xs ys h g, append-IsMap xs ys hx hy gs)

-- An addition under a condition, of states that are new where it holds.
pub add_if-fresh :
    (c : Bool) (add m : Map Str) (g : Globals)
    → IsMap m
    → IsMap add
    → (c ≡ true → AllFresh add m)
    → (add_if c add (record g { process_status_names = m })
        ≡ (ok tt, record g { process_status_names = m ++ when c add }))
      × IsMap (m ++ when c add)
unfolding add_if
add_if-fresh true add m g hm ha f =
    (add_new-fresh add m g ha (f refl), append-IsMap m add hm ha (f refl))
add_if-fresh false add m g hm ha f = (rw append-nil refl, rw append-nil hm)
