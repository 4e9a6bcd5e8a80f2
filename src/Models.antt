-- ===== src/Models.antt =====
-- The rows of the tables (incus-admin/internal/model/models.go) and the values of their status
-- columns. Ids, counts and times (Unix seconds) are natural numbers, amounts are whole cents, and
-- an IPv4 address is the number of its 32 bits.
use incus.Base.{ℕ, String, Option, Bool, true, false}
use incus.Base.Int.{ℤ}

-- The columns are TEXT: `other` is any value but the constants of models.go.
pub data OrderStatus : Type 0 where
  pending paid provisioning active expired cancelled : OrderStatus
  other : String → OrderStatus

pub data VmStatus : Type 0 where
  creating running stopped suspended error deleted gone migrating : VmStatus
  other : String → VmStatus

pub data RescueState : Type 0 where
  normal rescue : RescueState

pub data IpStatus : Type 0 where
  available assigned reserved cooldown : IpStatus
  other : String → IpStatus

pub data JobKind : Type 0 where
  vm_create vm_reinstall cluster_node_add cluster_node_remove cluster_vm_migrate_batch : JobKind
  other : String → JobKind

pub data JobStatus : Type 0 where
  queued running succeeded failed partial : JobStatus
  other : String → JobStatus

pub data StepStatus : Type 0 where
  pending running succeeded failed skipped : StepStatus

pub data TxType : Type 0 where
  deposit payment refund : TxType
  other : String → TxType

-- The errors of the repositories, the jobs and what they call; `wrapped` is fmt.Errorf("s: %w").
pub data Error : Type 0 where
  unreachable no_rows foreign_key unique not_found encryption : Error
  already_paid already_cancelled : Error
  bad_order_status : OrderStatus → Error
  insufficient_balance no_pools not_queued no_available_ips invalid_range invalid_ips : Error
  params_missing cluster_missing : ℕ → Error
  unknown_kind : JobKind → Error
  remote : String → Error
  wrapped : String → Error → Error

-- The texts that the code formats: a constructor for each format, with its arguments.
pub data Text : Type 0 where
  verbatim : String → Text
  paid_order : ℕ → Text
  refunded_order : ℕ → Text → Text
  prefixed : String → Text → Text
  message : Error → Text

pub record User : Type 0 where
  pub id : ℕ
  pub email : String
  pub name : String
  pub role : String
  pub logto_sub : String
  pub balance : ℤ
  pub stepup_auth_at : Option ℕ
  pub created_at : ℕ
  pub updated_at : ℕ

pub record Order : Type 0 where
  pub id : ℕ
  pub user_id : ℕ
  pub product_id : ℕ
  pub cluster_id : ℕ
  pub status : OrderStatus
  pub amount : ℤ
  pub currency : String
  pub expires_at : Option ℕ
  pub created_at : ℕ
  pub updated_at : ℕ

pub record Transaction : Type 0 where
  pub id : ℕ
  pub user_id : ℕ
  pub amount : ℤ
  pub type : TxType
  pub description : Text
  pub created_by : Option ℕ
  pub created_at : ℕ

pub record Invoice : Type 0 where
  pub id : ℕ
  pub order_id : ℕ
  pub user_id : ℕ
  pub amount : ℤ
  pub currency : String
  pub status : String
  pub due_at : Option ℕ
  pub paid_at : Option ℕ

pub record Vm : Type 0 where
  pub id : ℕ
  pub name : String
  pub cluster_id : ℕ
  pub user_id : ℕ
  pub order_id : Option ℕ
  pub ip : Option ℕ
  pub status : VmStatus
  pub cpu : ℕ
  pub memory_mb : ℕ
  pub disk_gb : ℕ
  pub os_image : String
  pub node : String
  pub password : Option String
  pub rescue_state : RescueState
  pub rescue_started_at : Option ℕ
  pub rescue_snapshot_name : Option String
  pub trashed_at : Option ℕ
  pub trashed_prev_status : Option VmStatus
  pub created_at : ℕ
  pub updated_at : ℕ

pub record IpAddress : Type 0 where
  pub id : ℕ
  pub pool_id : ℕ
  pub ip : ℕ
  pub vm_id : Option ℕ
  pub status : IpStatus
  pub cooldown_until : Option ℕ

pub record ProvisioningJob : Type 0 where
  pub id : ℕ
  pub kind : JobKind
  pub user_id : ℕ
  pub cluster_id : ℕ
  pub order_id : Option ℕ
  pub vm_id : Option ℕ
  pub target_name : String
  pub status : JobStatus
  pub error : Option Text
  pub refund_done_at : Option ℕ
  pub created_at : ℕ
  pub started_at : Option ℕ
  pub completed_at : Option ℕ

pub record ProvisioningJobStep : Type 0 where
  pub id : ℕ
  pub job_id : ℕ
  pub seq : ℕ
  pub name : String
  pub status : StepStatus
  pub detail : Option Text
  pub started_at : Option ℕ
  pub completed_at : Option ℕ

pub record Product : Type 0 where
  pub id : ℕ
  pub name : String
  pub slug : String
  pub cpu : ℕ
  pub memory_mb : ℕ
  pub disk_gb : ℕ
  pub bandwidth_tb : ℕ
  pub price_monthly : ℤ
  pub currency : String
  pub access : String
  pub active : Bool
  pub sort_order : ℕ

pub record SshKey : Type 0 where
  pub id : ℕ
  pub user_id : ℕ
  pub name : String
  pub public_key : String
  pub fingerprint : String
  pub created_at : ℕ

-- A limit of 0 is no limit.
pub record Quota : Type 0 where
  pub id : ℕ
  pub user_id : ℕ
  pub max_vms : ℕ
  pub max_vcpus : ℕ
  pub max_ram_mb : ℕ
  pub max_disk_gb : ℕ
  pub max_ips : ℕ
  pub max_snapshots : ℕ
  pub max_firewall_groups : ℕ
  pub max_firewall_rules_per_group : ℕ

pub record IpPool : Type 0 where
  pub id : ℕ
  pub cluster_id : ℕ
  pub cidr : String
  pub gateway : String
  pub vlan_id : ℕ

-- Comparisons of a status column with a constant.
abbrev pub is_pending : OrderStatus → Bool
is_pending OrderStatus.pending = true
is_pending _ = false

abbrev pub is_queued : JobStatus → Bool
is_queued JobStatus.queued = true
is_queued _ = false

-- `status IN ('queued', 'running')`
abbrev pub is_unfinished : JobStatus → Bool
is_unfinished JobStatus.queued = true
is_unfinished JobStatus.running = true
is_unfinished _ = false

abbrev pub is_deposit : TxType → Bool
is_deposit TxType.deposit = true
is_deposit _ = false

abbrev pub is_available : IpStatus → Bool
is_available IpStatus.available = true
is_available _ = false

abbrev pub is_cooldown : IpStatus → Bool
is_cooldown IpStatus.cooldown = true
is_cooldown _ = false

-- `status NOT IN ('deleted', 'gone')`
abbrev pub is_present : VmStatus → Bool
is_present VmStatus.deleted = false
is_present VmStatus.gone = false
is_present _ = true

-- `status IN ('creating', 'running', 'stopped', 'migrating')`
abbrev pub is_live : VmStatus → Bool
is_live VmStatus.creating = true
is_live VmStatus.running = true
is_live VmStatus.stopped = true
is_live VmStatus.migrating = true
is_live _ = false

-- `status IN ('creating', 'running')`
abbrev pub is_provisionable : VmStatus → Bool
is_provisionable VmStatus.creating = true
is_provisionable VmStatus.running = true
is_provisionable _ = false

-- `status NOT IN ('deleted', 'error', 'gone')`
abbrev pub is_counted : VmStatus → Bool
is_counted VmStatus.deleted = false
is_counted VmStatus.error = false
is_counted VmStatus.gone = false
is_counted _ = true

abbrev pub is_normal : RescueState → Bool
is_normal RescueState.normal = true
is_normal RescueState.rescue = false

pub data FloatingIpStatus : Type 0 where
  available : FloatingIpStatus
  attached : FloatingIpStatus

pub record FloatingIp : Type 0 where
  pub id : ℕ
  pub cluster_id : ℕ
  pub ip : ℕ
  pub bound_vm_id : Option ℕ
  pub status : FloatingIpStatus
  pub description : String
  pub allocated_at : ℕ
  pub attached_at : Option ℕ
  pub detached_at : Option ℕ
