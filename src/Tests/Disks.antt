-- ===== src/Tests/Disks.antt =====
-- Files that are a map, for the examples: they have the properties that the exporter relies on.
use infiniband_exporter.Prelude.{
  ℕ, zero, suc, sym, ◌+◌, ◌<◌, ◌≤◌, ◌≡◌, ◌≢◌, refl, ◌∙◌, true, ap, inl, inr, Option, none, some, [],
  ◌∷◌, ◌++◌, Bool-cases, arith, length, length-append, if◌then◌else◌,
}
use infiniband_exporter.Text.{Text, codes, equal}
use infiniband_exporter.Text.Equal.{equal_refl, equal_sound}
use infiniband_exporter.Dict.{Dict, get, put}
use infiniband_exporter.Dict.Laws.{get-put}
use infiniband_exporter.Exporter.Setup.{Gatherer}
use infiniband_exporter.Exporter.Textfile.{created, Files, IsLawful}

-- A file holds the metrics of a gatherer, or it is empty.
abbrev Content : Type 0 → Type 0
Content F = Option (Gatherer F)

-- The files: what a path reads as, nothing once it is removed.
abbrev Disk : Type 0 → Type 0
Disk F = Dict (Option (Content F))

-- What makes a name longer.
abbrev pad : ℕ → Text
pad zero = []
pad (suc n) = b'0' ∷ pad n

length-pad : (n : ℕ) → length (pad n) ≡ n
length-pad zero = refl
length-pad (suc n) = ap suc (length-pad n)

created-same : {S : Type 0} {p q : Text} {s t : S} → created p s ≡ created q t → (p ≡ q) × (s ≡ t)
created-same h = (cc, cc)

module _ {F : Type 0} where
  abbrev flat : Option (Option (Content F)) → Option (Content F)
  flat none = none
  flat (some c) = c

  unfoldable read : Disk F → Text → Option (Content F)
  unfolding get
  read s p = flat (get p s)

  read-put :
      (s : Disk F) (p q : Text) (c : Option (Content F))
      → read (put p c s) q ≡ (if equal p q then c else read s q)
  unfolding read
  read-put s p q c = elim (Bool-cases (equal p q)) [
    | inl e ↦ rw (get-put p q c s, e) refl
    | inr e ↦ rw (get-put p q c s, e) refl
  ]

  read-put_same : (s : Disk F) (p : Text) (c : Option (Content F)) → read (put p c s) p ≡ c
  read-put_same s p c = rw (read-put s p p c, equal_refl p) refl

  read-put_other :
      (s : Disk F) (p q : Text) (c : Option (Content F)) → q ≢ p → read (put p c s) q ≡ read s q
  read-put_other s p q c ne = elim (Bool-cases (equal p q)) [
    | inl e ↦ absurd (ne (rw (equal_sound p q e) refl))
    | inr e ↦ rw (read-put s p q c, e) refl
  ]

  -- A path that is longer than all that were written together.
  abbrev total : Disk F → ℕ
  total [] = 1
  total ((p, c) ∷ s) = length p + total s

  longer : (s : Disk F) (p : Text) → total s ≤ length p → get p s ≡ none
  unfolding get
  longer [] p h = refl
  longer ((q, c) ∷ s) p h = elim (Bool-cases (equal q p)) [
    | inl e ↦ absurd (omega (arith, ap length (equal_sound q p e), total_positive s))
    | inr e ↦ rw e (longer s p (omega arith))
  ]
    where
      total_positive : (s : Disk F) → 0 < total s
      total_positive [] = omega arith
      total_positive ((p, c) ∷ s) = omega (arith, total_positive s)

  abbrev fresh : Disk F → Text → Text
  fresh s b = b ++ pad (suc (total s))

  rename_to : Disk F → Text → Text → Option (Content F) → Disk F × Option Text
  rename_to s p p' none = (s, some (codes "no such file"))
  rename_to s p p' (some g) = (put p none (put p' (some g) s), none)

  -- A file that is not there is made.
  touch : Disk F → Text → Option (Content F) → Disk F
  touch s p none = put p (some none) s
  touch s p (some c) = s

  touch-others :
      (s : Disk F) (p q : Text) (o : Option (Content F)) → q ≢ p → read (touch s p o) q ≡ read s q
  unfolding touch
  touch-others s p q none ne = read-put_other s p q (some none) ne
  touch-others s p q (some c) ne = refl

  abbrev pub disk : Files F
  unfolding read rename_to touch
  disk = record {
    State = Disk F;
    Content = Content F;
    read = read;
    dir = λ p. [];
    base = λ p. p;
    create_temp = λ s d b. created (fresh s b) (put (fresh s b) none s);
    remove = λ s p. (put p none s, none);
    rename = λ s p p'. rename_to s p p' (read s p);
    write_to_textfile = λ s p g. (put p (some (some g)) s, none);
    render = λ g. some g;
    try_lock = λ s p. (touch s p (read s p), (true, none));
  }

  length-fresh : (s : Disk F) (b : Text) → length (fresh s b) ≡ length b + suc (total s)
  length-fresh s b = rw (length-append, length-pad) refl

  rename-others :
      (s : Disk F) (p p' q : Text) (o : Option (Content F))
      → q ≢ p
      → q ≢ p'
      → read (rename_to s p p' o).0 q ≡ read s q
  unfolding rename_to
  rename-others s p p' q none a b = refl
  rename-others s p p' q (some g) a b =
      rw (read-put_other (put p' (some g) s) p q none a, read-put_other s p' q (some g) b) refl

  renamed_lem :
      (s : Disk F) (p p' : Text) (o : Option (Content F))
      → p ≢ p'
      → (rename_to s p p' o).1 ≡ none
      → (read (rename_to s p p' o).0 p ≡ none) × (read (rename_to s p p' o).0 p' ≡ o)
  unfolding rename_to
  renamed_lem s p p' none ne h = absurd cc
  renamed_lem s p p' (some g) ne h = (
    read-put_same (put p' (some g) s) p none,
    rw (read-put_other (put p' (some g) s) p p' none (λ e. ne (sym e)))
        (read-put_same s p' (some g)),
  )

  not_renamed_lem :
      (s : Disk F) (p p' e : Text) (o : Option (Content F))
      → (rename_to s p p' o).1 ≡ some e
      → (rename_to s p p' o).0 ≡ s
  unfolding rename_to
  not_renamed_lem s p p' e none h = refl
  not_renamed_lem s p p' e (some g) h = absurd cc

  pub disk-IsLawful : IsLawful disk
  unfolding disk read
  disk-IsLawful = record {
    created-new = λ s s' output tmp h.
        let e = (created-same h).0 in
        (
          λ k. omega (arith, ap length e, ap length k, length-fresh s output),
          rw (longer s tmp (omega (arith, ap length e, length-fresh s output))) refl,
        );
    created-others = λ s s' d b tmp q h ne.
        rw (← (created-same h).1, (created-same h).0) (read-put_other s tmp q none ne);
    remove-others = λ s p q ne. read-put_other s p q none ne;
    remove-gone = λ s p h. read-put_same s p none;
    removed = λ s p h. read-put_same s p none;
    rename-others = λ s p p' q a b. rename-others s p p' q (read s p) a b;
    renamed = λ s p p' ne h. renamed_lem s p p' (read s p) ne h;
    not_renamed = λ s p p' e h. not_renamed_lem s p p' e (read s p) h;
    write-others = λ s p q g ok ne. read-put_other s p q (some (some g)) ne;
    write-there = λ s p q g c ne h. read-put_other s p q (some (some g)) ne ∙ h;
    try_lock-others = λ s p q ne. touch-others s p q (read s p) ne;
    written = λ s p g h. read-put_same s p (some (some g));
  }

abbrev pub empty_disk : (disk {F = Option ℕ}).State
unfolding disk
empty_disk = []
