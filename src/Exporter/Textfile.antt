-- ===== src/Exporter/Textfile.antt =====
-- `writeMetrics`: the metrics of one scrape are put in place of the output file.
pub mod Laws
use infiniband_exporter.Prelude.{ℕ, ◌≡◌, ◌≢◌, Bool, true, false, Option, none, some}
use infiniband_exporter.Prelude.Int.{ℤ}
use infiniband_exporter.Text.{Text}
use infiniband_exporter.Dict.{RangeOrder}
use infiniband_exporter.Float.{Float64}
use infiniband_exporter.Discover.Cache.{Shared, Scrape}
use infiniband_exporter.Exporter.Setup.{SetupFlags, Gatherer, setup_gathers}

-- What `os.CreateTemp` returns: a new file, or an error.
pub data Created (S : Type 0) : Type 0 where
  created : Text → S → Created S
  not_created : Text → Created S

-- The operating system's files, and the functions that change them. An operation that can fail
-- returns its error, if any.
pub record Files (F : Type 0) : Type 1 where
  pub State : Type 0
  pub Content : Type 0
  -- what a reader of the path finds
  pub read : State → Text → Option Content
  -- `filepath.Dir` and `filepath.Base`
  pub dir : Text → Text
  pub base : Text → Text
  -- `os.CreateTemp`, `os.Remove` and `os.Rename`
  pub create_temp : State → Text → Text → Created State
  pub remove : State → Text → State × Option Text
  pub rename : State → Text → Text → State × Option Text
  -- `prometheus.WriteToTextfile`, and the text that it makes of the metrics
  pub write_to_textfile : State → Text → Gatherer F → State × Option Text
  pub render : Gatherer F → Content
  -- `flock.New(path).TryLock()`, which makes the file if there is none
  pub try_lock : State → Text → State × (Bool × Option Text)

-- What the code relies on, as it is documented.
pub record IsLawful {F : Type 0} (fs : Files F) : Type 0 where
  -- the temporary file is a new one, whose name is longer than the pattern
  pub created-new :
      (s s' : fs.State) (output tmp : Text)
      → fs.create_temp s (fs.dir output) (fs.base output) ≡ created tmp s'
      → (tmp ≢ output) × (fs.read s tmp ≡ none)
  pub created-others :
      (s s' : fs.State) (d b tmp q : Text)
      → fs.create_temp s d b ≡ created tmp s'
      → q ≢ tmp
      → fs.read s' q ≡ fs.read s q
  pub remove-others :
      (s : fs.State) (p q : Text) → q ≢ p → fs.read (fs.remove s p).0 q ≡ fs.read s q
  -- what is not there is not there after an attempt to remove it
  pub remove-gone :
      (s : fs.State) (p : Text) → fs.read s p ≡ none → fs.read (fs.remove s p).0 p ≡ none
  pub removed :
      (s : fs.State) (p : Text) → (fs.remove s p).1 ≡ none → fs.read (fs.remove s p).0 p ≡ none
  pub rename-others :
      (s : fs.State) (p p' q : Text) → q ≢ p → q ≢ p' → fs.read (fs.rename s p p').0 q ≡ fs.read s q
  pub renamed :
      (s : fs.State) (p p' : Text)
      → p ≢ p'
      → (fs.rename s p p').1 ≡ none
      → (fs.read (fs.rename s p p').0 p ≡ none) × (fs.read (fs.rename s p p').0 p' ≡ fs.read s p)
  pub not_renamed :
      (s : fs.State) (p p' e : Text) → (fs.rename s p p').1 ≡ some e → (fs.rename s p p').0 ≡ s
  -- it writes to a temporary file of its own, which is renamed upon success only
  pub write-others :
      (s : fs.State) (p q : Text) (g : Gatherer F)
      → (fs.write_to_textfile s p g).1 ≡ none
      → q ≢ p
      → fs.read (fs.write_to_textfile s p g).0 q ≡ fs.read s q
  -- on an error that file may be left, but it is a new one
  pub write-there :
      (s : fs.State) (p q : Text) (g : Gatherer F) (c : fs.Content)
      → q ≢ p
      → fs.read s q ≡ some c
      → fs.read (fs.write_to_textfile s p g).0 q ≡ some c
  pub written :
      (s : fs.State) (p : Text) (g : Gatherer F)
      → (fs.write_to_textfile s p g).1 ≡ none
      → fs.read (fs.write_to_textfile s p g).0 p ≡ some (fs.render g)
  pub try_lock-others :
      (s : fs.State) (p q : Text) → q ≢ p → fs.read (fs.try_lock s p).0 q ≡ fs.read s q

-- How `writeMetrics` ends: with the metrics in place, with an error, or by a panic.
pub data Written : Type 0 where
  complete : Written
  failed_with : Text → Written
  panicked : Written

module _ {F : Type 0} (fs : Files F) (output : Text) where
  abbrev result_of : Option Text → Written
  result_of none = complete
  result_of (some e) = failed_with e

  -- Behind `WriteToTextfile`.
  unfoldable pub replace_output : Text → fs.State × Option Text → Written × fs.State
  replace_output tmp (s, some e) = (failed_with e, s)
  replace_output tmp (s, none) = let (s', e) = fs.rename s tmp output in (result_of e, s')

  -- Between the temporary file and the deferred `os.Remove`.
  unfoldable pub fill_output : Text → fs.State → Option (Gatherer F) → Written × fs.State
  unfolding replace_output
  fill_output tmp s none = (panicked, s)
  fill_output tmp s (some g) = replace_output tmp (fs.write_to_textfile s tmp g)

  -- `defer func() { _ = os.Remove(tmp.Name()) }()`, which a panic runs too
  unfoldable pub cleaned : Text → Written × fs.State → Written × fs.State
  cleaned tmp (w, s) = (w, (fs.remove s tmp).0)

  module _ (fl : Float64 F) (ord : RangeOrder) (port_state : Bool) (flags : SetupFlags) (ttl : ℤ)
      (scrape : Scrape F) where
    unfoldable pub write_created :
        Created fs.State → fs.State → Shared F → Written × (fs.State × Shared F)
    unfolding fill_output cleaned setup_gathers
    write_created (not_created e) s shared = (failed_with e, (s, shared))
    write_created (created tmp s') s shared =
        let (gatherer, shared') = setup_gathers fl ord port_state flags ttl true scrape shared in
        let (w, s'') = cleaned tmp (fill_output tmp s' gatherer) in (w, (s'', shared'))

    unfoldable pub write_metrics : fs.State → Shared F → Written × (fs.State × Shared F)
    unfolding write_created
    write_metrics s shared =
        write_created (fs.create_temp s (fs.dir output) (fs.base output)) s shared
