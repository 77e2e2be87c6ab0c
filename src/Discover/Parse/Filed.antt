-- ===== src/Discover/Parse/Filed.antt =====
-- Each device that the lines lead to is listed.
use infiniband_exporter.Prelude.{
  ◌≡◌, refl, ◌⊎◌, sym, ◌∙◌, Bool, some, List, [], ◌∷◌, Bool-cases, inl, inr, arith,
}
use mathlib.Core.List.{Permᴰ, Memᴰ}
use mathlib.Core.List.Permᴰ
use infiniband_exporter.Text.{Text, codes, equal, split}
use infiniband_exporter.Text.Equal.{equal_iff}
use infiniband_exporter.Dict.{Dict, RangeOrder, get, keys}
use infiniband_exporter.Float.{Float64}
use infiniband_exporter.Device.{InfinibandDevice}
use infiniband_exporter.Discover.Sort.{sort_strings}
use infiniband_exporter.Discover.Sort.Laws.{sort_strings-perm}
use infiniband_exporter.Discover.Parse.{
  ok, Topology, add_device, by_type, topology, finish, parse_lines, ibnetdiscover_parse,
}
use infiniband_exporter.Discover.Parse.Listed.{added, topology-eq}

module _ {F : Type 0} where
  added_self :
      (d : InfinibandDevice F) (t : Topology F)
      → ((d.type ≡ codes "SW") → Memᴰ d (add_device (some d) t).switches)
        × ((d.type ≡ codes "CA") → Memᴰ d (add_device (some d) t).hcas)
  unfolding equal
  added_self d t = (λ h. rw h (Memᴰ.head refl), λ h. rw h (Memᴰ.head refl))

  Memᴰ-by_type :
      (devices : Dict (InfinibandDevice F)) (guid : Text) (device : InfinibandDevice F)
      → get guid devices ≡ some device
      → (ks : List Text) → Memᴰ guid ks
      → ((device.type ≡ codes "SW") → Memᴰ device (by_type devices ks).switches)
        × ((device.type ≡ codes "CA") → Memᴰ device (by_type devices ks).hcas)
  unfolding by_type
  Memᴰ-by_type devices guid device e [] m = elim m [ ]
  Memᴰ-by_type devices guid device e (k ∷ ks) (Memᴰ.head g) =
      rw (← g, e) (added_self device (by_type devices ks))
  Memᴰ-by_type devices guid device e (k ∷ ks) (Memᴰ.tail m) =
      let (sw, ca) = Memᴰ-by_type devices guid device e ks m in
      added
        (λ t.
          ((device.type ≡ codes "SW") → Memᴰ device t.switches)
          × ((device.type ≡ codes "CA") → Memᴰ device t.hcas))
        (get k devices) (by_type devices ks) (sw, ca) (λ d e k. (sw, λ h. Memᴰ.tail (ca h)))
        (λ d e k. ((λ h. Memᴰ.tail (sw h)), ca))

  Memᴰ-keys :
      (guid : Text) (device : InfinibandDevice F) (m : Dict (InfinibandDevice F))
      → get guid m ≡ some device
      → Memᴰ guid (keys m)
  unfolding get keys
  Memᴰ-keys guid device [] e = cc
  Memᴰ-keys guid device ((j, d) ∷ m) e = elim (Bool-cases (equal j guid)) [
    | inl k ↦ Memᴰ.head (sym ((equal_iff j guid).0 k))
    | inr k ↦ Memᴰ.tail (Memᴰ-keys guid device m (rw k at e))
  ]

Permᴰ-Memᴰ : {x : Text} {xs ys : List Text} → Permᴰ xs ys → Memᴰ x xs → Memᴰ x ys
Permᴰ-Memᴰ Permᴰ.nil h = h
Permᴰ-Memᴰ (Permᴰ.cons e p) (Memᴰ.head g) = Memᴰ.head (g ∙ e)
Permᴰ-Memᴰ (Permᴰ.cons e p) (Memᴰ.tail h) = Memᴰ.tail (Permᴰ-Memᴰ p h)
Permᴰ-Memᴰ (Permᴰ.swap e f) (Memᴰ.head g) = Memᴰ.tail (Memᴰ.head (g ∙ e))
Permᴰ-Memᴰ (Permᴰ.swap e f) (Memᴰ.tail (Memᴰ.head g)) = Memᴰ.head (g ∙ f)
Permᴰ-Memᴰ (Permᴰ.swap e f) (Memᴰ.tail (Memᴰ.tail h)) = Memᴰ.tail (Memᴰ.tail h)
Permᴰ-Memᴰ (Permᴰ.trans p q) h = Permᴰ-Memᴰ q (Permᴰ-Memᴰ p h)

module _ {F : Type 0} where
  Memᴰ-topology :
      (ord : RangeOrder) (devices : Dict (InfinibandDevice F)) (guid : Text)
      (device : InfinibandDevice F)
      → get guid devices ≡ some device
      → ((device.type ≡ codes "SW") → Memᴰ device (topology ord devices).switches)
        × ((device.type ≡ codes "CA") → Memᴰ device (topology ord devices).hcas)
  Memᴰ-topology ord devices guid device e = rw (topology-eq ord devices) (
      Memᴰ-by_type devices guid device e (sort_strings (keys devices)) (
        Permᴰ-Memᴰ (Permᴰ.symm (sort_strings-perm (keys devices)))
          (Memᴰ-keys guid device devices e)))

  -- A switch or an HCA is in the list of its type; another device is neither.
  abbrev pub IsFiled : Topology F → InfinibandDevice F → Type 0
  IsFiled t device =
      ((device.type ≡ codes "SW") × Memᴰ device t.switches)
      ⊎ (((device.type ≡ codes "CA") × Memᴰ device t.hcas)
          ⊎ (¬ (device.type ≡ codes "SW") × ¬ (device.type ≡ codes "CA")))

  topology-IsFiled :
      (ord : RangeOrder) (devices : Dict (InfinibandDevice F)) (guid : Text)
      (device : InfinibandDevice F)
      → get guid devices ≡ some device
      → IsFiled (topology ord devices) device
  topology-IsFiled ord devices guid device e =
      let (sw, ca) = Memᴰ-topology ord devices guid device e in
      elim (Bool-cases (equal device.type (codes "SW"))) [
        | inl k ↦ (let is_sw = (equal_iff device.type (codes "SW")).0 k in inl (is_sw, sw is_sw))
        | inr k ↦ elim (Bool-cases (equal device.type (codes "CA"))) [
          | inl l ↦
              (let is_ca = (equal_iff device.type (codes "CA")).0 l in inr (inl (is_ca, ca is_ca)))
          | inr l ↦ inr (
              inr (
                (λ h. ground (arith, k, h, equal_iff device.type (codes "SW"))),
                (λ h. ground (arith, l, h, equal_iff device.type (codes "CA"))),
              ))
        ]
      ]

  -- When the lines lead to some devices, the function returns a topology, in which each of them that
  -- is a switch or an HCA is listed.
  pub ibnetdiscover_parse-IsFiled :
      (fl : Float64 F) (ord : RangeOrder) (port_state : Bool) (out : Text)
      (devices : Dict (InfinibandDevice F)) (guid : Text) (device : InfinibandDevice F)
      → parse_lines fl port_state [] (split out b'\n') ≡ ok devices
      → get guid devices ≡ some device
      → (t : Topology F) × ((ibnetdiscover_parse fl ord port_state out ≡ ok t) × IsFiled t device)
  unfolding ibnetdiscover_parse finish
  ibnetdiscover_parse-IsFiled fl ord port_state out devices guid device h e =
      (topology ord devices, (rw h refl, topology-IsFiled ord devices guid device e))
