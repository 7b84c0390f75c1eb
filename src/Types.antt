-- ===== src/Types.antt =====
-- internal/sync/enums.go and core_types.go: the enumerations with their stored texts, and the three
-- snapshots of a path. A value of an enumeration is one of its constants.
pub mod Wire
pub mod Snapshots
