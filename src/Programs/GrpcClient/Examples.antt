-- ===== src/Programs/GrpcClient/Examples.antt =====
-- Two connections that are known by their ports.
