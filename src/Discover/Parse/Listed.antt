-- ===== src/Discover/Parse/Listed.antt =====
-- The switches and the HCAs that `ibnetdiscoverParse` returns.
use infiniband_exporter.Prelude.{
  ◌≡◌, refl, ap, sym, ◌∙◌, Bool, true, false, Option, none, some, List, [], ◌∷◌, All, Bool-cases,
  inl, inr, Perm, arith,
}
use mathlib.Core.Logic.{∥∥₁_elim}
use mathlib.Core.Path.{subst}
use mathlib.Core.List.{Permᴰ, Memᴰ}
use mathlib.Core.List.Memᴰ
use mathlib.Core.List.Permᴰ
use native.Mathlib.Nat.{ℕ_set}
use infiniband_exporter.Text.{Text, codes, equal, split}
use infiniband_exporter.Text.Equal.{equal_iff}
use infiniband_exporter.Dict.{Dict, RangeOrder, get, keys}
use infiniband_exporter.Dict.Laws.{Distinct, Distinct-perm}
use infiniband_exporter.Float.{Float64}
use infiniband_exporter.Device.{InfinibandDevice}
use infiniband_exporter.Collect.Runs.Written.{guids}
use infiniband_exporter.Discover.Sort.{text_le, sort_strings}
use infiniband_exporter.Discover.Sort.Laws.{
  IsSorted, sort_strings-IsSorted, sort_strings-perm, sort_strings-perm_eq,
}
use infiniband_exporter.Discover.Parse.{
  Parsed, ok, error, panic, Topology, add_device, by_type, get_device_guids, topology, finish,
  parse_lines, ibnetdiscover_parse,
}
use infiniband_exporter.Discover.Parse.Devices.{IsOwn, IsKeyed, HasKeyed, parse_lines-IsKeyed}

texts_set : IsSet (List Text)
texts_set = mathlib.Core.List.is_set (mathlib.Core.List.is_set ℕ_set)

sort_strings-Perm_eq : {xs ys : List Text} → Perm xs ys → sort_strings xs ≡ sort_strings ys
sort_strings-Perm_eq p = ∥∥₁_elim p (texts_set _ _) sort_strings-perm_eq

module _ {F : Type 0} where
  -- The order in which `range` visits the keys does not show.
  pub topology-eq :
      (ord : RangeOrder) (devices : Dict (InfinibandDevice F))
      → topology ord devices ≡ by_type devices (sort_strings (keys devices))
  unfolding topology get_device_guids
  topology-eq ord devices =
      ap (by_type devices) (sort_strings-Perm_eq (ord.arrange-perm (keys devices)))

  finish-eq :
      (ord ord' : RangeOrder) (r : Parsed (Dict (InfinibandDevice F)))
      → finish ord r ≡ finish ord' r
  unfolding finish
  finish-eq ord ord' (ok devices) = ap ok (topology-eq ord devices ∙ sym (topology-eq ord' devices))
  finish-eq ord ord' (error e) = refl
  finish-eq ord ord' panic = refl

  -- The order in which Go visits the keys of a map does not change the answer.
  pub ibnetdiscover_parse-order :
      (fl : Float64 F) (ord ord' : RangeOrder) (port_state : Bool) (out : Text)
      → ibnetdiscover_parse fl ord port_state out ≡ ibnetdiscover_parse fl ord' port_state out
  unfolding ibnetdiscover_parse
  ibnetdiscover_parse-order fl ord ord' port_state out =
      finish-eq ord ord' (parse_lines fl port_state [] (split out b'\n'))

  get-IsOwn :
      (guid : Text) (device : InfinibandDevice F) (m : Dict (InfinibandDevice F))
      → All IsOwn m
      → get guid m ≡ some device
      → device.guid ≡ guid
  unfolding get
  get-IsOwn guid device [] h e = cc
  get-IsOwn guid device ((j, d) ∷ m) (hj, h) e = elim (Bool-cases (equal j guid)) [
    | inl k ↦ ground (arith, e, hj, k, equal_iff j guid)
    | inr k ↦ get-IsOwn guid device m h (rw k at e)
  ]

  -- The three ways in which a device that is looked up is added.
  pub added :
      (Q : Topology F → Type 0) (o : Option (InfinibandDevice F)) (t : Topology F)
      → Q t
      → ((d : InfinibandDevice F)
          → o ≡ some d
          → d.type ≡ codes "CA"
          → Q (record t { hcas = d ∷ t.hcas }))
      → ((d : InfinibandDevice F)
          → o ≡ some d
          → d.type ≡ codes "SW"
          → Q (record t { switches = d ∷ t.switches }))
      → Q (add_device o t)
  added Q none t same ca sw = same
  added Q (some d) t same ca sw = elim (Bool-cases (equal d.type (codes "CA"))) [
    | inl e ↦ rw e (ca d refl ((equal_iff d.type (codes "CA")).0 e))
    | inr e ↦ rw e (elim (Bool-cases (equal d.type (codes "SW"))) [
      | inl k ↦ rw k (sw d refl ((equal_iff d.type (codes "SW")).0 k))
      | inr k ↦ rw k same
    ])
  ]

  -- What holds of the GUIDs that are looked up holds of the GUIDs of the devices that are found.
  All-by_type :
      (P : Text → Type 0) (devices : Dict (InfinibandDevice F)) (ks : List Text)
      → All IsOwn devices
      → All P ks
      → All P (guids (by_type devices ks).switches) × All P (guids (by_type devices ks).hcas)
  unfolding by_type
  All-by_type P devices [] own h = (tt, tt)
  All-by_type P devices (k ∷ ks) own (hk, h) =
      let (hs, hc) = All-by_type P devices ks own h in
      added (λ t. All P (guids t.switches) × All P (guids t.hcas)) (get k devices)
        (by_type devices ks) (hs, hc)
        (λ d e ca. (hs, (subst P (sym (get-IsOwn k d devices own e)) hk, hc)))
        (λ d e sw. ((subst P (sym (get-IsOwn k d devices own e)) hk, hs), hc))

  -- The devices of a type, in increasing order of their GUIDs, each GUID once.
  abbrev pub IsListing : Text → List (InfinibandDevice F) → Type 0
  IsListing type ds =
      All (λ (d : InfinibandDevice F). d.type ≡ type) ds
      × (IsSorted (guids ds) × Distinct (guids ds))

  abbrev pub IsListed : Topology F → Type 0
  IsListed t = IsListing (codes "SW") t.switches × IsListing (codes "CA") t.hcas

  by_type-IsListed :
      (devices : Dict (InfinibandDevice F)) (ks : List Text)
      → All IsOwn devices
      → IsSorted ks
      → Distinct ks
      → IsListed (by_type devices ks)
  unfolding by_type
  by_type-IsListed devices [] own sorted distinct = ((tt, (tt, tt)), (tt, (tt, tt)))
  by_type-IsListed devices (k ∷ ks) own (first, sorted) (new, distinct) =
      let (ls, lh) = by_type-IsListed devices ks own sorted distinct in
      let (fs, fh) = All-by_type (λ u. text_le k u ≡ true) devices ks own first in
      let (ns, nh) = All-by_type (λ j. equal k j ≡ false) devices ks own new in
      let before : (d : InfinibandDevice F)
          → get k devices ≡ some d
          → (l : List Text) → All (λ u. text_le k u ≡ true) l
          → All (λ u. text_le d.guid u ≡ true) l =
        (λ d e l.
          subst (λ x. All (λ u. text_le x u ≡ true) l) (sym (get-IsOwn k d devices own e))) in
      let apart : (d : InfinibandDevice F)
          → get k devices ≡ some d
          → (l : List Text) → All (λ j. equal k j ≡ false) l
          → All (λ j. equal d.guid j ≡ false) l =
        (λ d e l.
          subst (λ x. All (λ j. equal x j ≡ false) l) (sym (get-IsOwn k d devices own e))) in
      added IsListed (get k devices) (by_type devices ks) (ls, lh)
        (λ d e ca. (ls, ((ca, lh.0), ((before d e _ fh, lh.1.0), (apart d e _ nh, lh.1.1)))))
        (λ d e sw. (((sw, ls.0), ((before d e _ fs, ls.1.0), (apart d e _ ns, ls.1.1))), lh))

  topology-IsListed :
      (ord : RangeOrder) (devices : Dict (InfinibandDevice F))
      → IsKeyed devices
      → IsListed (topology ord devices)
  topology-IsListed ord devices (own, distinct) = rw (topology-eq ord devices) (
      by_type-IsListed devices (sort_strings (keys devices)) own
        (sort_strings-IsSorted (keys devices))
        (Distinct-perm (Permᴰ.symm (sort_strings-perm (keys devices))) distinct))

  finish-IsListed :
      (ord : RangeOrder) (t : Topology F) (r : Parsed (Dict (InfinibandDevice F)))
      → HasKeyed r
      → finish ord r ≡ ok t
      → IsListed t
  unfolding finish
  finish-IsListed ord t (ok devices) keyed h =
      let same : topology ord devices ≡ t = cc in
      subst IsListed same (topology-IsListed ord devices keyed)
  finish-IsListed ord t (error x) keyed h = cc
  finish-IsListed ord t panic keyed h = cc

  -- A topology that the function returns lists switches and HCAs, each in the increasing order of
  -- the GUIDs and no GUID twice.
  pub ibnetdiscover_parse-IsListed :
      (fl : Float64 F) (ord : RangeOrder) (port_state : Bool) (out : Text) (t : Topology F)
      → ibnetdiscover_parse fl ord port_state out ≡ ok t
      → IsListed t
  unfolding ibnetdiscover_parse
  ibnetdiscover_parse-IsListed fl ord port_state out t h =
      finish-IsListed ord t (parse_lines fl port_state [] (split out b'\n'))
        (parse_lines-IsKeyed fl port_state [] (split out b'\n') (tt, tt)) h
