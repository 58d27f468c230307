-- ===== src/Lib.antt =====
-- omnidiscover: passive discovery of network devices. A capture back end hands frames to an engine,
-- which classifies them by interface, decodes LLDP, CDP, MNDP and mDNS, and fuses what the
-- messages say into one device per neighbour. The files of pkg/omnidiscover that are modelled:
--
-- - protocol.go: Protocol (protocols, sets of them, the status of a decoder and `addIssue`)
-- - model.go, bytes.go: Net (MACs and addresses); the details of a message are with its decoder
-- - ethernet.go: Ethernet (`DecodeEthernetFrame`), Ethernet.Udp (`DecodeUDP`)
-- - lldp.go: Lldp.Message (the message and `Reset`), Lldp (`DecodeLLDPDU`, `DecodeLLDPFrame`),
--   Lldp.Order (a PDU as a chain of TLVs)
-- - cdp.go: Cdp.Message, Cdp.Checksum (`checksum16`), Cdp.Addresses (`decodeCDPAddresses`), Cdp
-- - mndp.go: Mndp
-- - mdns.go: Mdns.Name (`decodeDNSName`, `lowerDNSName`, `validateTXT`), Mdns.Name.Labels (what a
--   packet spells, through pointers), Mdns (`DecodeMDNS`)
-- - model.go: Model (text fields, services, devices, links, events), Model.Keys (`==` on keys)
-- - clone.go: Model.Clone (the deep copies that an event owns)
-- - stream.go: Stream (the queue between the engine and a stream), Stream.Merge (an event that takes
--   in a later one), Stream.Fifo (the queue's invariant)
-- - vendor.go: Vendor (`LookupMACVendor` and its binary search), Vendor.Search, Vendor.Lookup
-- - fusion.go and CleanText of pkg/utils/bytes.go: Fusion.Text (`mergeText`, `selectCanonical`)
-- - fusion.go: Fusion.Wheel (when an entry of the timing wheel fires), Fusion.Slots (the lists of
--   its slots, linked by indices), Fusion.Times (expiries and uptimes), Fusion.Services
--   (`rebuildServices`)
-- - classifier.go: Classifier.Rule (rules and predicates), Classifier.Compile (`CompileClassifier`),
--   Classifier.Match (`matchPredicate`), Classifier.Run (`Classify`), Classifier.Applies and
--   Classifier.Best (what a rule and a list of rules say, without masks)
-- - android_nsd.go: AndroidNsd (`Profile`, `TXTValue`)
-- - capture_common.go: Capture.Builder (the program with labels), Capture.Filter (`resolve`,
--   `discoveryFilter`), Capture.Filter.Program (the kernel's checks of classic BPF)
-- - engine.go: Engine (`routeCapture`, `enqueue`), Engine.Route (what a view does to the engine)
-- - config.go: Config (`withDefaults`, `validate`)
--
-- Prelude holds shared names, Go the part of the language: a run is a value of `Go`, which
-- returns, panics (a read or a slice out of range), or hangs: it runs out of the rounds of a loop,
-- or waits at a channel. A slice of bytes is the list of them. A pointer `dst` that may be nil is
-- an option. A `uint16` is a number, and a sum or product that could leave its width is written
-- with `%`. A time is its nanoseconds, and the zero time is 0. The generated tables of vendors are
-- a parameter of the lookup, the package regexp of the classifier, and `bytes.EqualFold`, which
-- goes by the tables of Unicode, of `TXTValue`. `sort.SliceStable` is an insertion sort, whose
-- result is the only one that is stable.
--
-- Bounds. Every loop has as many rounds as the code can take at most: one more than the bytes that
-- are left, 65 for the 32 labels and 32 jumps of a name, 9 for the IPv6 extension headers, 65 for
-- the digits of a word of a mask, and 2 for the carries of a checksum over at most 65535 bytes.
-- That this is enough is part of the theorems on decoders and searches: the run returns.
--
-- Not modelled: the reuse of buffers behind a message that is decoded into again, the capture back
-- ends but for their filter, the goroutines of the engine (its calls stand one behind another),
-- the fusion's tables of devices, links and DNS records (the services are made from a list of
-- records), the command line and its terminal interface, and the generated vendor table.
pub mod Prelude
pub mod Go
pub mod Protocol
pub mod Net
pub mod Ethernet
pub mod Lldp
pub mod Cdp
pub mod Mndp
pub mod Mdns
pub mod Model
pub mod Fusion
pub mod Stream
pub mod Vendor
pub mod Classifier
pub mod AndroidNsd
pub mod Capture
pub mod Engine
pub mod Config
mod Examples
