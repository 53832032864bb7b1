-- ===== src/Messages.antt =====
-- internal/common/common-ws.go: the messages between the hub and an agent. `B` is the type of encoded
-- texts; the encoding (CBOR) is a library's, and a `Codec` is what the program uses of it. The fields of
-- an answer that no handler of the agent fills (SMART data and services) are left out.
use homemonit.Base.{ℕ, String, Bool, true, ◌≡◌, Option, none, some, List, [], ◌∷◌}
use homemonit.Entities.{CombinedData, empty_stats}
use homemonit.Records.Stats.{Stats, FsStats, GpuData}

abbrev pub get_data : ℕ
get_data = 0

abbrev pub check_fingerprint : ℕ
check_fingerprint = 1

abbrev pub container_action : ℕ
container_action = 6

-- What of the data comes through an encoding: the fields with the tag "-" are zero.
abbrev pub sent_fs : FsStats → FsStats
sent_fs fs = record fs {
  max_disk_read_ps = 0;
  max_disk_write_ps = 0;
  max_disk_read_bytes = 0;
  max_disk_write_bytes = 0;
  max_disk_io_stats = empty_stats.max_disk_io_stats;
}

abbrev pub sent_gpu : GpuData → GpuData
sent_gpu gpu = record gpu { temperature = 0; count = 0 }

abbrev pub sent_entries : {A : Type 0} → (A → A) → List (String × A) → List (String × A)
sent_entries f [] = []
sent_entries f ((key, a) ∷ entries) = (key, f a) ∷ sent_entries f entries

abbrev pub sent_map :
    {A : Type 0} → (A → A) → Option (List (String × A)) → Option (List (String × A))
sent_map f none = none
sent_map f (some entries) = some (sent_entries f entries)

unfoldable pub sent_stats : Stats → Stats
sent_stats s = record s {
  max_cpu = 0;
  max_mem = 0;
  max_disk_read_ps = 0;
  max_disk_write_ps = 0;
  max_network_sent = 0;
  max_network_recv = 0;
  max_bandwidth = (0, 0);
  max_disk_io = (0, 0);
  max_disk_io_stats = empty_stats.max_disk_io_stats;
  extra_fs = sent_map sent_fs s.extra_fs;
  gpu_data = sent_map sent_gpu s.gpu_data;
}

abbrev pub sent_data : CombinedData → CombinedData
sent_data d = record d { stats = sent_stats d.stats }

abbrev pub sent_option : Option CombinedData → Option CombinedData
sent_option none = none
sent_option (some d) = some (sent_data d)

pub record HubRequest (B : Type 0) : Type 0 where
  pub action : ℕ  -- uint8
  pub payload : B  -- `Data`
  pub id : Option ℕ

pub record FingerprintRequest (B : Type 0) : Type 0 where
  pub signature : B
  pub need_sys_info : Bool

pub record FingerprintResponse : Type 0 where
  pub fingerprint : String
  pub hostname : String
  pub port : String
  pub name : String

pub record AgentResponse (B : Type 0) : Type 0 where
  pub id : Option ℕ
  pub system_data : Option CombinedData
  pub fingerprint : Option FingerprintResponse
  pub error : String
  pub text : Option String  -- `String`
  pub payload : Option B  -- `Data`, none where it is empty

pub record DataRequestOptions : Type 0 where
  pub cache_time_ms : ℕ  -- uint16
  pub include_details : Bool

pub record ContainerActionRequest : Type 0 where
  pub container_id : String
  pub action : String

pub record Codec (B : Type 0) : Type 0 where
  -- No float is a NaN or a negative zero, and each map has its keys once, in the order of the encoding.
  pub travels : CombinedData → Bool
  pub encode_response : AgentResponse B → B
  pub decode_response : B → Option (AgentResponse B)
  pub encode_combined : CombinedData → B
  pub decode_combined : B → CombinedData → Option CombinedData  -- into a value in use
  pub encode_fingerprint : FingerprintResponse → B
  pub decode_fingerprint : B → FingerprintResponse → Option FingerprintResponse
  pub encode_text : String → B
  pub encode_request : HubRequest B → B
  pub decode_request : B → Option (HubRequest B)
  pub encode_options : DataRequestOptions → B
  pub decode_options : B → DataRequestOptions  -- into a zero value, in spite of an error
  pub encode_fingerprint_request : FingerprintRequest B → B
  pub decode_fingerprint_request : B → Option (FingerprintRequest B)
  pub encode_action : ContainerActionRequest → B
  pub decode_action : B → ContainerActionRequest  -- into a zero value, in spite of an error

abbrev pub may_travel : {B : Type 0} → Codec B → Option CombinedData → Bool
may_travel c none = true
may_travel c (some d) = c.travels d

-- What is encoded is decoded to the same value, for the messages that both sides know, but for the
-- fields of the data that the tags leave out.
pub record IsFaithful {B : Type 0} (c : Codec B) : Type 0 where
  pub response :
      (r : AgentResponse B)
      → may_travel c r.system_data ≡ true
      → c.decode_response (c.encode_response r)
        ≡ some (record r { system_data = sent_option r.system_data })
  pub request : (r : HubRequest B) → c.decode_request (c.encode_request r) ≡ some r
  pub options : (r : DataRequestOptions) → c.decode_options (c.encode_options r) ≡ r
  pub fingerprint_request :
      (r : FingerprintRequest B)
      → c.decode_fingerprint_request (c.encode_fingerprint_request r) ≡ some r
  pub action : (r : ContainerActionRequest) → c.decode_action (c.encode_action r) ≡ r
