-- ===== src/Topology/Sockets.antt =====
-- The sockets of the topology: one for an id.
use mathlib.Core.Bool.{true≢false}
use scaphandre.Base.{
  ℕ, ◌≡◌, refl, sym, ◌∙◌, inl, inr, false, not, List, [], ◌∷◌, ◌++◌, ◌==◌, if◌then◌else◌,
  Bool-cases, any,
}
use scaphandre.Float.{Float}
use scaphandre.Sensor.Domain.{Domain}
use scaphandre.Sensor.Measure.{SensorData}
use scaphandre.Sensor.Socket.{CpuSocket, new_socket}
use scaphandre.Text.{Text}
use scaphandre.Topology.{Topology, safe_add_socket, safe_insert_socket}
use scaphandre.Topology.Events.{IsApart, IsDistinct}

module _ {fl : Float} where
  abbrev pub ids_of : List (CpuSocket fl) → List ℕ
  ids_of [] = []
  ids_of (s ∷ ss) = s.id ∷ ids_of ss

  IsApart-append :
      (p : ℕ) (s : CpuSocket fl) (ss : List (CpuSocket fl))
      → p == s.id ≡ false
      → IsApart p (ids_of ss)
      → IsApart p (ids_of (ss ++ s ∷ []))
  IsApart-append p s [] ne a = (ne, tt)
  IsApart-append p s (x ∷ xs) ne a = (a.0, IsApart-append p s xs ne a.1)

  IsDistinct-append :
      (s : CpuSocket fl) (ss : List (CpuSocket fl))
      → any (λ (x : CpuSocket fl). x.id == s.id) ss ≡ false
      → IsDistinct (ids_of ss)
      → IsDistinct (ids_of (ss ++ s ∷ []))
  IsDistinct-append s [] none_of d = (tt, tt)
  IsDistinct-append s (x ∷ xs) none_of d = elim (Bool-cases (x.id == s.id)) [
    | inl same ↦ absurd (true≢false (sym (rw same refl) ∙ none_of))
    | inr away ↦ (
      IsApart-append x.id s xs away d.0,
      IsDistinct-append s xs (sym (rw away refl) ∙ none_of) d.1,
    )
  ]

  pub IsDistinct-unless_there :
      (s : CpuSocket fl) (ss : List (CpuSocket fl))
      → IsDistinct (ids_of ss)
      → IsDistinct
          (ids_of (if not (any (λ (x : CpuSocket fl). x.id == s.id) ss) then ss ++ s ∷ [] else ss))
  IsDistinct-unless_there s ss d = elim (Bool-cases (any (λ (x : CpuSocket fl). x.id == s.id) ss)) [
    | inl there ↦ rw there d
    | inr new ↦ rw new (IsDistinct-append s ss new d)
  ]

module _ {fs fl : Float} where
  pub safe_insert_socket-sockets :
      (s : CpuSocket fl) (t : Topology fs fl)
      → (safe_insert_socket fs fl s t).sockets ≡ (
          if not (any (λ (x : CpuSocket fl). x.id == s.id) t.sockets)
          then t.sockets ++ s ∷ []
          else t.sockets)
  unfolding safe_insert_socket
  safe_insert_socket-sockets s t =
      elim (Bool-cases (any (λ (x : CpuSocket fl). x.id == s.id) t.sockets)) [
        | inl there ↦ rw there refl
        | inr new ↦ rw new refl
      ]

  pub safe_add_socket-insert :
      (id : ℕ) (domains : List (Domain fl)) (attributes : List (List SensorData)) (path : Text)
      (kbytes : ℕ) (sensor_data : SensorData) (t : Topology fs fl)
      → (safe_add_socket fs fl id domains attributes path kbytes sensor_data t).0
        ≡ safe_insert_socket fs fl (new_socket fl id domains attributes path kbytes sensor_data) t
  unfolding safe_insert_socket safe_add_socket new_socket
  safe_add_socket-insert id domains attributes path kbytes sensor_data t =
      elim (Bool-cases (any (λ (x : CpuSocket fl). x.id == id) t.sockets)) [
        | inl there ↦ rw there refl
        | inr new ↦ rw new refl
      ]

  pub safe_add_socket-tracker :
      (id : ℕ) (domains : List (Domain fl)) (attributes : List (List SensorData)) (path : Text)
      (kbytes : ℕ) (sensor_data : SensorData) (t : Topology fs fl)
      → (safe_add_socket fs fl id domains attributes path kbytes sensor_data t).0.proc_tracker
        ≡ t.proc_tracker
  unfolding safe_add_socket
  safe_add_socket-tracker id domains attributes path kbytes sensor_data t =
      elim (Bool-cases (any (λ (x : CpuSocket fl). x.id == id) t.sockets)) [
        | inl there ↦ rw there refl
        | inr new ↦ rw new refl
      ]

  -- `safe_add_socket` changes the topology as `safe_insert_socket` of a new socket does, and inserting
  -- any socket keeps the ids of the sockets distinct.
  pub safe_add_socket-IsDistinct :
      (id : ℕ) (domains : List (Domain fl)) (attributes : List (List SensorData)) (path : Text)
      (kbytes : ℕ) (sensor_data : SensorData) (socket : CpuSocket fl) (t : Topology fs fl)
      → IsDistinct (ids_of t.sockets)
      → ((safe_add_socket fs fl id domains attributes path kbytes sensor_data t).0
          ≡ safe_insert_socket fs fl
              (new_socket fl id domains attributes path kbytes sensor_data)
              t)
        × IsDistinct (ids_of (safe_insert_socket fs fl socket t).sockets)
  safe_add_socket-IsDistinct id domains attributes path kbytes sensor_data socket t d = (
    safe_add_socket-insert id domains attributes path kbytes sensor_data t,
    rw (safe_insert_socket-sockets socket t) (IsDistinct-unless_there socket t.sockets d),
  )
