-- ===== src/Client/Headings.antt =====
-- cmd/client/main.go: what `main` prints under each of its headings, over any service.
use grpc_example.Common.{string_eq}
use grpc_example.Client.Prints.{Prints}
