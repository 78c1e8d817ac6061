-- ===== src/Lib.antt =====
-- WolkConnect-Cpp connects a device to the WolkAbout platform. This library models its services in
-- C++ and proves what makes them correct.
--
-- FileHandler (src/service/file/FileHandler.cpp) puts the packets of a file together. FileDownloader
--   (src/service/file/FileDownloader.cpp) requests them one by one, with a timer and retries; its
--   state is the record of the class, its commands are `download`, `handle_data` and `abort`, and
--   FileDownloader.States has them, with the end of the timer, as steps.
-- FileDownloadService (src/service/file/FileDownloadService.cpp): the state and its accessors;
--   FileList has updateFileList, Handlers the handlers of the platform's commands, Execution the
--   command buffers of the service and its downloaders, the callbacks and the collector as steps,
--   and Execution.Interleavings every order of them; Collector has the thread that removes the
--   downloads that are over, with its condition variable, and the shutdown.
-- FileRepository (src/repository/FileRepository.h) is the interface that the file and firmware
--   services use, with Keeps for what they rely on; FileRepository.Sqlite models
--   src/repository/SQLiteFileRepository.cpp over the statements that it executes, and its module
--   Histories the map that it stands for; Interface makes it a FileRepository with the laws of Keeps.
-- FirmwareUpdateService (src/service/firmware/FirmwareUpdateService.cpp) installs a file of the
--   repository and reports the outcome after the restart.
-- DataService (src/service/data/DataService.cpp) publishes what waits in the persistence; its
--   module Dispatch has messageReceived.
-- InboundPlatformMessageHandler (src/InboundPlatformMessageHandler.cpp) chooses the service that gets a
--   message of the platform. KeepAliveService (src/service/keep_alive/KeepAliveService.cpp) pings the
--   platform while the device is connected.
-- Wolk (src/Wolk.cpp) is what the application calls: the record of the class and the commands that its
--   calls push; Wolk.Commands runs them, with the calls of the services above, Wolk.Facade takes the
--   messages of the connection to the services, and Wolk.Callbacks has what the application gives.
-- WolkBuilder (src/WolkBuilder.cpp) takes the configuration and builds the library; Device
--   (src/model/Device.cpp) is the device that it is for; WolkPahoMqttClient
--   (src/connectivity/mqtt/WolkPahoMqttClient.cpp) is the client that it connects with.
-- FullFeatureSet (examples/full_feature_set/Application.cpp) is an application: DeviceConfiguration keeps
--   what the platform configures, in memory and in a file; Main has its handlers and its loop, with
--   the library of Wolk behind them.
--
-- Sdk, with Sdk.Connectivity and Sdk.Persistence, has the parts of WolkSDK-Cpp that the code calls, as
-- records of operations with the documented laws that the proofs use; the SDK is a submodule whose
-- code is not in the repository. Base has shared names and lemmas, Samples concrete values.
--
-- A command that a thread executes, and the end of a timer, is one step; what two threads do to the
-- same object during one step is not modelled. The services other than DataService do not use what
-- `publish` of the connection answers: each keeps what it gave to the connection in a list. Integers
-- keep their widths in FileDownloader (16, 32 and 64 bits) and in the timestamps of Wolk (64 bits).
-- Two loops of the source are unbounded and run on fuel: publishing in batches, where more fuel than items returns, and store with update in the repository,
-- where two rounds are enough unless the engine fails to delete.
--
-- WolkBuilder.build takes it that the file of the database opens: what the constructor of
--   SQLiteFileRepository throws otherwise leaves build as it is thrown.
--
-- Not modelled: logging and sleeping; the threads of the command buffers, which are steps here; src/examples/simple.
mod Base
pub mod Sdk
mod Samples
pub mod FileHandler
pub mod FileDownloader
pub mod DataService
pub mod FileRepository
pub mod FileDownloadService
pub mod FirmwareUpdateService
pub mod InboundPlatformMessageHandler
pub mod FullFeatureSet
pub mod KeepAliveService
pub mod Device
pub mod Wolk
pub mod WolkBuilder
pub mod WolkPahoMqttClient
