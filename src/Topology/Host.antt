-- ===== src/Topology/Host.antt =====
-- The energy of the host: the sum of the counters of its sockets and memory.
use scaphandre.Sensor.Domain
use scaphandre.Sensor.Socket
use scaphandre.Base.{
  ℕ, ◌+◌, ◌^◌, ◌<◌, ◌≡◌, refl, ap, true, false, none, some, List, [], ◌∷◌, ◌++◌, arith,
}
use scaphandre.Base.Int.{pos, add_i128-pos}
use scaphandre.Float.{Float}
use scaphandre.Sensor.Domain.{Domain}
use scaphandre.Sensor.Measure.{Record, new_record, same_text, SensorData, lookup, Files}
use scaphandre.Sensor.Socket.{CpuSocket}
use scaphandre.Text.{Text, codes, trim, show, parse_i128, show_ℤ}
use scaphandre.Text.Digits.{show-AllDigits, show-ne-nil, IsBlank, trim-digits}
use scaphandre.Text.RoundTrip.{parse_i128-show}
use scaphandre.Topology.{Topology}
use scaphandre.Topology.Measures.{
  get_rapl_psys_energy_microjoules, dram_energy, sockets_energy, read_record,
}
use scaphandre.Units.{micro_joule}

-- The file that the sensor data name as the source holds a number, with blanks around it.
pub record HoldsNumber (files : Files) (sensor_data : SensorData) (n : ℕ) : Type 0 where
  pub path : Text
  pub before : Text
  pub behind : Text
  pub source : lookup "source_file" sensor_data ≡ some path
  pub content : files path ≡ some (before ++ show n ++ behind)
  pub before-IsBlank : IsBlank before
  pub behind-IsBlank : IsBlank behind
  pub fits : n < 2 ^ 127

-- The sum of the counters of the memory domains of a socket
pub data DramTotal {fl : Float} (files : Files) : List (Domain fl) → ℕ → Type 0 where
  no_domains : DramTotal files [] 0
  skip_domain :
      (d : Domain fl) (ds : List (Domain fl)) (n : ℕ)
      → same_text d.name (codes "dram") ≡ false
      → DramTotal files ds n
      → DramTotal files (d ∷ ds) n
  add_dram :
      (d : Domain fl) (ds : List (Domain fl)) (m n : ℕ)
      → same_text d.name (codes "dram") ≡ true
      → HoldsNumber files d.sensor_data m
      → DramTotal files ds n
      → DramTotal files (d ∷ ds) (m + n)

-- The sum of the counters of the sockets and of their memory domains
pub data HostTotal {fl : Float} (files : Files) : List (CpuSocket fl) → ℕ → Type 0 where
  no_sockets : HostTotal files [] 0
  add_socket :
      (s : CpuSocket fl) (ss : List (CpuSocket fl)) (n m k : ℕ)
      → HoldsNumber files s.sensor_data n
      → DramTotal files s.domains m
      → HostTotal files ss k
      → HostTotal files (s ∷ ss) (n + (m + k))

parse-HoldsNumber :
    (files : Files) (sensor_data : SensorData) (n : ℕ) (h : HoldsNumber files sensor_data n)
    → parse_i128 (trim (h.before ++ show n ++ h.behind)) ≡ some (pos n)
parse-HoldsNumber files sensor_data n h =
    rw
      (trim-digits h.before (show n) h.behind h.before-IsBlank (show-AllDigits n) (show-ne-nil n)
        h.behind-IsBlank)
      (parse_i128-show n h.fits)

module _ (fs fl : Float) (files : Files) (now : ℕ) where
  -- The record that a read of the number gives
  abbrev reading : (sensor_data : SensorData) (n : ℕ) → HoldsNumber files sensor_data n → Record
  reading sensor_data n h = new_record now (h.before ++ show n ++ h.behind) micro_joule

  domain_reads :
      (d : Domain fl) (n : ℕ) (h : HoldsNumber files d.sensor_data n)
      → Domain.read_record fl files now d ≡ some (some (reading d.sensor_data n h))
  unfolding Domain.read_record
  domain_reads d n h = rw (h.source, h.content) refl

  socket_reads :
      (s : CpuSocket fl) (n : ℕ) (h : HoldsNumber files s.sensor_data n)
      → Socket.read_record fl files now s ≡ some (some (reading s.sensor_data n h))
  unfolding Socket.read_record
  socket_reads s n h = rw (h.source, h.content) refl

  dram_energy-DramTotal :
      (ds : List (Domain fl)) (n : ℕ)
      → n < 2 ^ 127
      → DramTotal files ds n
      → dram_energy fs fl files now ds ≡ some (pos n)
  unfolding dram_energy
  dram_energy-DramTotal _ _ lt no_domains = refl
  dram_energy-DramTotal _ _ lt (skip_domain d ds n other rest) =
      rw other (dram_energy-DramTotal ds n lt rest)
  dram_energy-DramTotal _ _ lt (add_dram d ds m n same h rest) =
      rw (same, domain_reads d m h, dram_energy-DramTotal ds n (omega arith) rest)
        (rw (parse-HoldsNumber files d.sensor_data m h) (ap some (add_i128-pos m n lt)))

  sockets_energy-HostTotal :
      (ss : List (CpuSocket fl)) (n : ℕ)
      → n < 2 ^ 127
      → HostTotal files ss n
      → sockets_energy fs fl files now ss ≡ some (pos n)
  unfolding sockets_energy
  sockets_energy-HostTotal _ _ lt no_sockets = refl
  sockets_energy-HostTotal _ _ lt (add_socket s ss n m k h memory rest) =
      rw
        (
          socket_reads s n h,
          dram_energy-DramTotal s.domains m (omega arith) memory,
          sockets_energy-HostTotal ss k (omega arith) rest,
        )
        (rw (parse-HoldsNumber files s.sensor_data n h, add_i128-pos m k (omega arith))
          (ap some (add_i128-pos n (m + k) lt)))

  psys-none :
      (t : Topology fs fl)
      → lookup "psys" t.sensor_data ≡ none
      → get_rapl_psys_energy_microjoules fs fl files now t ≡ none
  unfolding get_rapl_psys_energy_microjoules
  psys-none t h = rw h refl

  -- On a host without a counter of the whole platform, where the files of all sockets and memory
  -- domains hold numbers, blanks around them, of a sum below 2 ^ 127, the record of the host is that
  -- sum, in microjoules; other domains do not count.
  pub read_record-HostTotal :
      (t : Topology fs fl) (total : ℕ)
      → lookup "psys" t.sensor_data ≡ none
      → total < 2 ^ 127
      → HostTotal files t.sockets total
      → read_record fs fl files now t ≡ some (new_record now (show total) micro_joule)
  unfolding read_record show_ℤ
  read_record-HostTotal t total no_psys lt h =
      rw (read_record, psys-none t no_psys, sockets_energy-HostTotal t.sockets total lt h) refl
