-- ===== src/World/Provider/Sight.antt =====
-- internal/adapter/world/runtime/provider.go: the visible tiles of `SnapshotForAgent`.
