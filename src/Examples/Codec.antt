-- ===== src/Examples/Codec.antt =====
-- A format for the control file that can be read back: each list behind its length.
use example_docker_volume_pl.Common.{
  ℕ, zero, suc, ◌≡◌, refl, ap, sym, ◌∙◌, false, Option, none, some, [], ◌∷◌, ◌++◌, length, take,
  drop, ok,
}
use example_docker_volume_pl.Common.Text.{Str, str_eq}
use example_docker_volume_pl.Common.Map.{Map, lookup}
use example_docker_volume_pl.Driver.{Saved, Library}
use example_docker_volume_pl.Driver.Documents.{SameTable, SameSaved, SameDocument}
use example_docker_volume_pl.Examples.World.{lenient}

-- Something is read back, whatever follows it.
abbrev Reads : {A : Type 0} → (A → Str → Str) → (Str → A × Str) → Type 0
Reads {A} put get = (a : A) (out : Str) → get (put a out) ≡ (a, out)

unfoldable pub put_number : ℕ → Str → Str
put_number n out = n ∷ out

unfoldable pub get_number : Str → ℕ × Str
get_number [] = (0, [])
get_number (n ∷ s) = (n, s)

number-Reads : Reads put_number get_number
unfolding put_number get_number
number-Reads n out = refl

unfoldable pub put_text : Str → Str → Str
put_text s out = length s ∷ s ++ out

unfoldable pub get_text : Str → Str × Str
get_text [] = ([], [])
get_text (n ∷ s) = (take n s, drop n s)

take-append : (s out : Str) → take (length s) (s ++ out) ≡ s
take-append [] out = refl
take-append (c ∷ s) out = ap (λ t. c ∷ t) (take-append s out)

drop-append : (s out : Str) → drop (length s) (s ++ out) ≡ out
drop-append [] out = refl
drop-append (c ∷ s) out = drop-append s out

text-Reads : Reads put_text get_text
unfolding put_text get_text
text-Reads s out j = (take-append s out j, drop-append s out j)

module _ {A : Type 0} (put : A → Str → Str) (get : Str → A × Str) where
  unfoldable pub put_option : Option A → Str → Str
  put_option none out = 0 ∷ out
  put_option (some a) out = 1 ∷ put a out

  unfoldable pub get_option : Str → Option A × Str
  get_option [] = (none, [])
  get_option (zero ∷ s) = (none, s)
  get_option (suc _ ∷ s) = let (a, rest) = get s in (some a, rest)

  option-Reads : Reads put get → Reads put_option get_option
  unfolding put_option get_option
  option-Reads h none out = refl
  option-Reads h (some a) out = λ j. (some (h a out j).0, (h a out j).1)

  unfoldable pub put_entries : Map A → Str → Str
  put_entries [] out = out
  put_entries ((k, a) ∷ m) out = put_text k (put a (put_entries m out))

  unfoldable pub get_entries : ℕ → Str → Map A × Str
  get_entries zero s = ([], s)
  get_entries (suc n) s =
      let (k, s1) = get_text s in
      let (a, s2) = get s1 in let (m, s3) = get_entries n s2 in ((k, a) ∷ m, s3)

  entries-Reads :
      Reads put get
      → (m : Map A) (out : Str) → get_entries (length m) (put_entries m out) ≡ (m, out)
  unfolding put_entries get_entries
  entries-Reads h [] out = refl
  entries-Reads h ((k, a) ∷ m) out =
      rw (text-Reads k (put a (put_entries m out)), h a (put_entries m out), entries-Reads h m out)
        refl

  unfoldable pub put_map : Map A → Str → Str
  unfolding put_entries
  put_map m out = length m ∷ put_entries m out

  unfoldable pub get_map : Str → Map A × Str
  unfolding get_entries
  get_map [] = ([], [])
  get_map (n ∷ s) = get_entries n s

  map-Reads : Reads put get → Reads put_map get_map
  unfolding put_map get_map
  map-Reads h m out = entries-Reads h m out

unfoldable pub put_saved : Saved → Str → Str
put_saved v out = put_text v.base_path (
    put_text v.path (
      put_number v.created_at (
        put_option (put_map put_number get_number) (get_map put_number get_number) v.mounts (
          put_option (put_map put_text get_text) (get_map put_text get_text) v.options
            (put_text v.puid out)))))

unfoldable pub get_saved : Str → Saved × Str
get_saved s =
    let (base_path, s1) = get_text s in
    let (path, s2) = get_text s1 in
    let (created_at, s3) = get_number s2 in
    let (mounts, s4) =
      get_option (put_map put_number get_number) (get_map put_number get_number) s3 in
    let (options, s5) = get_option (put_map put_text get_text) (get_map put_text get_text) s4 in
    let (puid, s6) = get_text s5 in
    (
      record {
        base_path = base_path;
        path = path;
        created_at = created_at;
        mounts = mounts;
        options = options;
        puid = puid;
      },
      s6,
    )

saved-Reads : Reads put_saved get_saved
unfolding put_saved get_saved
saved-Reads v out =
    let r6 = text-Reads v.puid out in
    let r5 =
      option-Reads (put_map put_text get_text) (get_map put_text get_text)
        (map-Reads put_text get_text text-Reads) v.options (put_text v.puid out) in
    let r4 =
      option-Reads (put_map put_number get_number) (get_map put_number get_number)
        (map-Reads put_number get_number number-Reads) v.mounts
        (put_option (put_map put_text get_text) (get_map put_text get_text) v.options
          (put_text v.puid out)) in
    let o3 = put_option (put_map put_number get_number) (get_map put_number get_number) v.mounts (
      put_option (put_map put_text get_text) (get_map put_text get_text) v.options
        (put_text v.puid out)) in
    let r3 = number-Reads v.created_at o3 in
    let r2 = text-Reads v.path (put_number v.created_at o3) in
    let r1 = text-Reads v.base_path (put_text v.path (put_number v.created_at o3)) in
    rw (r1, r2, r3, r4, r5, r6) refl

-- A library that writes and reads every document.
unfoldable pub write_document : Map Saved → Str
unfolding put_map put_saved put_option put_text put_number put_entries
write_document d = put_map put_saved get_saved d []

unfoldable pub read_document : Str → Map Saved
unfolding get_map get_saved get_option get_text get_number get_entries
read_document s = (get_map put_saved get_saved s).0

abbrev pub codec : Library
codec = record lenient {
  marshal = λ d. ok (write_document d);
  unmarshal = λ s. ok (read_document s);
}

read_document-write_document : (d : Map Saved) → read_document (write_document d) ≡ d
unfolding read_document write_document
read_document-write_document d = ap (λ r. r.0) (map-Reads put_saved get_saved saved-Reads d [])

SameTable-refl : {V : Type 0} (m : Option (Map V)) → SameTable m m
SameTable-refl none = tt
SameTable-refl (some m) = λ k. refl

SameSaved-refl : (v : Option Saved) → SameSaved v v
SameSaved-refl none = tt
SameSaved-refl (some v) =
    (refl, refl, refl, SameTable-refl v.mounts, SameTable-refl v.options, refl)

write_document-cons : (d : Map Saved) → str_eq (write_document d) [] ≡ false
unfolding write_document put_map str_eq
write_document-cons d = refl

pub codec-document :
    (d : Map Saved) (bytes : Str)
    → codec.marshal d ≡ ok bytes
    → (str_eq bytes [] ≡ false)
      × ((e : Map Saved) × (codec.unmarshal bytes ≡ ok e) × SameDocument d e)
codec-document d bytes e =
    let f : write_document d ≡ bytes = cc in
    (
      ap (λ b. str_eq b []) (sym f) ∙ write_document-cons d,
      (
        d,
        ap (λ b. codec.unmarshal b) (sym f) ∙ ap ok (read_document-write_document d),
        λ name. SameSaved-refl (lookup name d),
      ),
    )
