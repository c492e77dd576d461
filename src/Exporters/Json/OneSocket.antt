-- ===== src/Exporters/Json/OneSocket.antt =====
-- The report has the socket of the first power only.
use scaphandre.Base.{
  ℕ, ◌≡◌, refl, ap, ◌∙◌, inl, inr, false, Option, none, some, List, [], ◌∷◌, ◌++◌, ◌==◌,
  if◌then◌else◌, Bool-cases, ◌>>=◌, bind-some,
}
use scaphandre.Exporters.Json.Sockets.{
  SocketReport, label_id, first_socket_power, socket_report, socket_reports, all_sockets,
}
use scaphandre.Exporters.Metrics.{Metric}
use scaphandre.Float.{Float}
use scaphandre.Sensor.Socket.{CpuSocket}

abbrev pub with_id : {fl : Float} → ℕ → List (CpuSocket fl) → List (CpuSocket fl)
with_id id [] = []
with_id id (s ∷ ss) = let rest = with_id id ss in if s.id == id then s ∷ rest else rest

module _ {fs fl : Float} (narrow : fl.F → fs.F) where
  socket_report-other :
      (metric : Metric) (metrics : List Metric) (s : CpuSocket fl) (id : ℕ)
      → label_id metric ≡ some id
      → s.id == id ≡ false
      → socket_report fs fl narrow (some metric) metrics s ≡ some []
  unfolding socket_report
  socket_report-other metric metrics s id h other = bind-some _ h (rw other refl)

  some-bind :
      (o : Option (List (SocketReport fs fl)))
      → (o >>= λ (rest : List (SocketReport fs fl)). some rest) ≡ o
  some-bind none = refl
  some-bind (some l) = refl

  socket_reports-with_id :
      (metric : Metric) (metrics : List Metric) (id : ℕ) (ss : List (CpuSocket fl))
      → label_id metric ≡ some id
      → socket_reports fs fl narrow (some metric) metrics ss
        ≡ socket_reports fs fl narrow (some metric) metrics (with_id id ss)
  unfolding socket_reports
  socket_reports-with_id metric metrics id [] h = refl
  socket_reports-with_id metric metrics id (s ∷ ss) h = elim (Bool-cases (s.id == id)) [
    | inl same ↦ rw same (
        ap
          (λ (o : Option (List (SocketReport fs fl))).
            socket_report fs fl narrow (some metric) metrics s >>= λ first.
            o >>= λ rest. some (first ++ rest))
          (socket_reports-with_id metric metrics id ss h))
    | inr other ↦ rw other (
        bind-some _ (socket_report-other metric metrics s id h other)
          (some-bind _ ∙ socket_reports-with_id metric metrics id ss h))
  ]

  -- Where the first metric of the power of a socket is labelled with a number, the report is the one
  -- that is made of the sockets with that number: the others are left out, whatever their metrics are.
  pub all_sockets-with_id :
      (metric : Metric) (metrics : List Metric) (id : ℕ) (ss : List (CpuSocket fl))
      → first_socket_power metrics ≡ some metric
      → label_id metric ≡ some id
      → all_sockets fs fl narrow metrics ss ≡ all_sockets fs fl narrow metrics (with_id id ss)
  unfolding all_sockets
  all_sockets-with_id metric metrics id ss found h =
      rw found (socket_reports-with_id metric metrics id ss h)
