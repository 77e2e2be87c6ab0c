-- ===== src/Exporter/Textfile/Laws.antt =====
-- What `writeMetrics` leaves of the files.
use infiniband_exporter.Prelude.{
  Bool, true, ◌≡◌, ◌≢◌, refl, sym, ◌∙◌, ◌⊎◌, inl, inr, Option, none, some, Bool-cases,
}
use infiniband_exporter.Prelude.Int.{ℤ}
use infiniband_exporter.Text.{Text, equal}
use infiniband_exporter.Text.Equal.{equal_sound, equal_refl}
use infiniband_exporter.Dict.{RangeOrder}
use infiniband_exporter.Float.{Float64}
use infiniband_exporter.Discover.Cache.{Shared, Scrape}
use infiniband_exporter.Exporter.Setup.{SetupFlags, Gatherer, setup_gathers}
use infiniband_exporter.Exporter.Textfile.{
  Created, created, not_created, Files, IsLawful, Written, complete, result_of, replace_output,
  fill_output, cleaned, write_created, write_metrics,
}

module _ {F : Type 0} (fs : Files F) (law : IsLawful fs) (output : Text) where
  -- All paths but one read as before.
  abbrev pub IsSameBut : Text → fs.State → fs.State → Type 0
  IsSameBut p s s' = (q : Text) → q ≢ p → fs.read s' q ≡ fs.read s q

  -- All paths but one read as before if they were there.
  abbrev pub IsThereBut : Text → fs.State → fs.State → Type 0
  IsThereBut p s s' =
      (q : Text) → q ≢ p → (c : fs.Content) → fs.read s q ≡ some c → fs.read s' q ≡ some c

  -- The output reads as the metrics of the gatherer, and every other path as before.
  abbrev pub IsReplaced : Gatherer F → fs.State → fs.State → Type 0
  IsReplaced g s s' = (fs.read s' output ≡ some (fs.render g)) × IsSameBut output s s'

  -- What was there has not changed; there may be a file that was not there before, which is not the
  -- output, and it is there no more if the last attempt to remove it has succeeded.
  abbrev pub IsLeft : fs.State → fs.State → Type 0
  IsLeft s s' =
      (tmp : Text) × (tmp ≢ output)
      × (fs.read s tmp ≡ none)
      × IsThereBut tmp s s'
      × ((full : fs.State) × (s' ≡ (fs.remove full tmp).0)
          × ((fs.remove full tmp).1 ≡ none → fs.read s' tmp ≡ none))

  -- What is known behind `WriteToTextfile` and the renaming, before the temporary file is removed.
  abbrev IsFilled : Text → Option (Gatherer F) → fs.State → Written × fs.State → Type 0
  IsFilled tmp gatherer s (w, s') =
      ((w ≡ complete)
        × ((g : Gatherer F) × (gatherer ≡ some g)
            × (fs.read s' output ≡ some (fs.render g))
            × (fs.read s' tmp ≡ none)
            × ((q : Text) → q ≢ tmp → q ≢ output → fs.read s' q ≡ fs.read s q)))
      ⊎ ((w ≢ complete) × IsThereBut tmp s s')

  renamed_lem :
      (tmp : Text) (g : Gatherer F) (s s' : fs.State) (e : Option Text)
      → tmp ≢ output
      → IsSameBut tmp s s'
      → fs.read s' tmp ≡ some (fs.render g)
      → (fs.rename s' tmp output).1 ≡ e
      → IsFilled tmp (some g) s (result_of fs output e, (fs.rename s' tmp output).0)
  renamed_lem tmp g s s' none ne same full ok =
      let (gone, there) = law.renamed s' tmp output ne ok in
      inl (
        refl,
        (g, refl, there ∙ full, gone, λ q a b. law.rename-others s' tmp output q a b ∙ same q a),
      )
  renamed_lem tmp g s s' (some e) ne same full failed =
      inr (λ h. cc, λ q a c h. rw (law.not_renamed s' tmp output e failed) (same q a ∙ h))

  replace_output-IsFilled :
      (tmp : Text) (g : Gatherer F) (s s' : fs.State) (e : Option Text)
      → tmp ≢ output
      → (e ≡ none → IsSameBut tmp s s')
      → IsThereBut tmp s s'
      → (e ≡ none → fs.read s' tmp ≡ some (fs.render g))
      → IsFilled tmp (some g) s (replace_output fs output tmp (s', e))
  unfolding replace_output
  replace_output-IsFilled tmp g s s' none ne same there full =
      renamed_lem tmp g s s' (fs.rename s' tmp output).1 ne (same refl) (full refl) refl
  replace_output-IsFilled tmp g s s' (some e) ne same there full = inr (λ h. cc, there)

  fill_output-IsFilled :
      (tmp : Text) (s : fs.State) (gatherer : Option (Gatherer F))
      → tmp ≢ output
      → IsFilled tmp gatherer s (fill_output fs output tmp s gatherer)
  unfolding fill_output
  fill_output-IsFilled tmp s none ne = inr (λ h. cc, λ q a c h. h)
  fill_output-IsFilled tmp s (some g) ne =
      replace_output-IsFilled tmp g s (fs.write_to_textfile s tmp g).0
        (fs.write_to_textfile s tmp g).1 ne (λ ok q a. law.write-others s tmp q g ok a)
        (λ q a c h. law.write-there s tmp q g c a h) (law.written s tmp g)

  -- After the deferred removal.
  abbrev pub IsWritten : Option (Gatherer F) → fs.State → Written → fs.State → Type 0
  IsWritten gatherer s w s' =
      ((w ≡ complete) × ((g : Gatherer F) × (gatherer ≡ some g) × IsReplaced g s s'))
      ⊎ ((w ≢ complete) × ((s' ≡ s) ⊎ IsLeft s s'))

  module _ (tmp : Text) (s made : fs.State) (ne : tmp ≢ output) (new : fs.read s tmp ≡ none)
      (same : IsSameBut tmp s made) where
    removed-IsReplaced :
        (g : Gatherer F) (full : fs.State)
        → fs.read full output ≡ some (fs.render g)
        → fs.read full tmp ≡ none
        → ((q : Text) → q ≢ tmp → q ≢ output → fs.read full q ≡ fs.read made q)
        → IsReplaced g s (fs.remove full tmp).0
    removed-IsReplaced g full there gone others = (
      law.remove-others full tmp output (λ h. ne (sym h)) ∙ there,
      λ q b. elim (Bool-cases (equal q tmp)) [
        | inl e ↦ rw (equal_sound q tmp e) (law.remove-gone full tmp gone ∙ sym new)
        | inr e ↦
            (let a : q ≢ tmp = (λ h. absurd (cc (equal_refl tmp, h, e))) in
              law.remove-others full tmp q a ∙ (others q a b ∙ same q a))
      ],
    )

    cleaned-IsWritten :
        (gatherer : Option (Gatherer F)) (w : Written) (full : fs.State)
        → IsFilled tmp gatherer made (w, full)
        → IsWritten gatherer s w (cleaned fs output tmp (w, full)).1
    unfolding cleaned
    cleaned-IsWritten gatherer w full (inl (c, (g, e, there, gone, others))) =
        inl (c, (g, e, removed-IsReplaced g full there gone others))
    cleaned-IsWritten gatherer w full (inr (c, others)) = inr (
      c,
      inr (
        tmp,
        ne,
        new,
        λ q a c h. law.remove-others full tmp q a ∙ others q a c (same q a ∙ h),
        (full, refl, law.removed full tmp),
      ),
    )

  module _ (fl : Float64 F) (ord : RangeOrder) (port_state : Bool) (flags : SetupFlags) (ttl : ℤ)
      (scrape : Scrape F) (s : fs.State) (shared : Shared F) where
    write_created-IsWritten :
        (c : Created fs.State)
        → fs.create_temp s (fs.dir output) (fs.base output) ≡ c
        → let gatherer = (setup_gathers fl ord port_state flags ttl true scrape shared).0 in
          let (w, (s', _)) =
            write_created fs output fl ord port_state flags ttl scrape c s shared in
          IsWritten gatherer s w s'
    unfolding write_created
    write_created-IsWritten (not_created e) h = inr (λ k. cc, inl refl)
    write_created-IsWritten (created tmp made) h =
        let gatherer = (setup_gathers fl ord port_state flags ttl true scrape shared).0 in
        let (ne, new) = law.created-new s made output tmp h in
        let filled = fill_output fs output tmp made gatherer in
        cleaned-IsWritten tmp s made ne new
          (λ q a. law.created-others s made (fs.dir output) (fs.base output) tmp q h a) gatherer
          filled.0 filled.1 (fill_output-IsFilled tmp made gatherer ne)

    -- `writeMetrics` returns without an error only with the output replaced by the metrics of the
    -- collectors that it has set up, and every other path as it was. On an error or a panic
    -- every path that was there is as it was; the temporary file was not there and is not the
    -- output, and it is there no more if its removal has succeeded.
    pub write_metrics_lem :
        let gatherer = (setup_gathers fl ord port_state flags ttl true scrape shared).0 in
        let result = write_metrics fs output fl ord port_state flags ttl scrape s shared in
        IsWritten gatherer s result.0 result.1.0
    unfolding write_metrics
    write_metrics_lem =
        write_created-IsWritten (fs.create_temp s (fs.dir output) (fs.base output)) refl
